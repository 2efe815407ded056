-- ===== src/Store/Statements.antt =====
-- internal/store/sqlite.go: the texts of the schema and of the statements.
use my_demo_app.Prelude.{◌++◌}
use my_demo_app.Text.{Str, lit}

abbrev pub schema : Str
schema =
    lit "\n"
    ++ lit "CREATE TABLE IF NOT EXISTS plans (\n"
    ++ lit "\tid                       TEXT PRIMARY KEY,\n"
    ++ lit "\tname                     TEXT NOT NULL,\n"
    ++ lit "\tmonthly_price_cents      INTEGER NOT NULL,\n"
    ++ lit "\tincluded_voice_minutes   INTEGER NOT NULL,\n"
    ++ lit "\tincluded_data_mb         INTEGER NOT NULL,\n"
    ++ lit "\tincluded_sms             INTEGER NOT NULL,\n"
    ++ lit "\toverage_voice_cents      INTEGER NOT NULL,\n"
    ++ lit "\toverage_data_cents_per_mb INTEGER NOT NULL,\n"
    ++ lit "\toverage_sms_cents        INTEGER NOT NULL\n"
    ++ lit ");\n"
    ++ lit "\n"
    ++ lit "CREATE TABLE IF NOT EXISTS subscribers (\n"
    ++ lit "\tid               TEXT PRIMARY KEY,\n"
    ++ lit "\tmsisdn           TEXT NOT NULL,\n"
    ++ lit "\timsi             TEXT NOT NULL,\n"
    ++ lit "\tname             TEXT NOT NULL,\n"
    ++ lit "\tplan_id          TEXT NOT NULL,\n"
    ++ lit "\towner_account_id TEXT NOT NULL,\n"
    ++ lit "\tstatus           TEXT NOT NULL,\n"
    ++ lit "\tcreated_at       TIMESTAMP NOT NULL\n"
    ++ lit ");\n"
    ++ lit "\n"
    ++ lit "CREATE TABLE IF NOT EXISTS usage (\n"
    ++ lit "\tid            TEXT PRIMARY KEY,\n"
    ++ lit "\tsubscriber_id TEXT NOT NULL,\n"
    ++ lit "\tkind          TEXT NOT NULL,\n"
    ++ lit "\tquantity      INTEGER NOT NULL,\n"
    ++ lit "\tts            TIMESTAMP NOT NULL\n"
    ++ lit ");\n"
    ++ lit "\n"
    ++ lit "CREATE INDEX IF NOT EXISTS idx_usage_subscriber ON usage(subscriber_id);\n"

abbrev pub insert_plan : Str
insert_plan =
    lit "INSERT INTO plans (id, name, monthly_price_cents, included_voice_minutes,\n"
    ++ lit "\t\t\tincluded_data_mb, included_sms, overage_voice_cents,\n"
    ++ lit "\t\t\toverage_data_cents_per_mb, overage_sms_cents)\n"
    ++ lit "\t\t VALUES (?, ?, ?, ?, ?, ?, ?, ?, ?)"

abbrev pub select_plan : Str
select_plan =
    lit "SELECT id, name, monthly_price_cents, included_voice_minutes,\n"
    ++ lit "\t\t\tincluded_data_mb, included_sms, overage_voice_cents,\n"
    ++ lit "\t\t\toverage_data_cents_per_mb, overage_sms_cents\n"
    ++ lit "\t\t FROM plans WHERE id = ?"

abbrev pub select_plans : Str
select_plans =
    lit "SELECT id, name, monthly_price_cents, included_voice_minutes,\n"
    ++ lit "\t\t\tincluded_data_mb, included_sms, overage_voice_cents,\n"
    ++ lit "\t\t\toverage_data_cents_per_mb, overage_sms_cents\n"
    ++ lit "\t\t FROM plans ORDER BY id LIMIT ? OFFSET ?"

abbrev pub insert_subscriber : Str
insert_subscriber =
    lit
      "INSERT INTO subscribers (id, msisdn, imsi, name, plan_id, owner_account_id, status, created_at)\n"
    ++ lit "\t\t VALUES (?, ?, ?, ?, ?, ?, ?, ?)"

abbrev pub select_subscriber : Str
select_subscriber =
    lit "SELECT id, msisdn, imsi, name, plan_id, owner_account_id, status, created_at\n"
    ++ lit "\t\t FROM subscribers WHERE id = ?"

abbrev pub select_subscribers : Str
select_subscribers =
    lit "SELECT id, msisdn, imsi, name, plan_id, owner_account_id, status, created_at\n"
    ++ lit "\t\tFROM subscribers"

abbrev pub update_row : Str
update_row =
    lit "UPDATE subscribers\n"
    ++ lit
        "\t\t SET msisdn = ?, imsi = ?, name = ?, plan_id = ?, owner_account_id = ?, status = ?, created_at = ?\n"
    ++ lit "\t\t WHERE id = ?"

abbrev pub insert_usage : Str
insert_usage =
    lit "INSERT INTO usage (id, subscriber_id, kind, quantity, ts)\n"
    ++ lit "\t\t VALUES (?, ?, ?, ?, ?)"

abbrev pub select_usage : Str
select_usage =
    lit "SELECT id, subscriber_id, kind, quantity, ts\n"
    ++ lit "\t\t FROM usage\n"
    ++ lit "\t\t WHERE subscriber_id = ? AND ts >= ? AND ts < ?\n"
    ++ lit "\t\t ORDER BY ts"
