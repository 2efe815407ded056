-- ===== src/Observability.antt =====
-- internal/observability/logging.go and tracing.go: the level of the logger and the tracer's exporter.
-- slog and OpenTelemetry are parameters.
use my_demo_app.Prelude.{ℕ, ◌||◌, map, if◌then◌else◌}
use my_demo_app.Text.{Str, lit, str_eq, is_empty}
use my_demo_app.Text.Trim.{trim_space}
use my_demo_app.Exec.{Reply, value, error}

pub data Level : Type 0 where
  level_debug level_info level_warn level_error : Level

-- The level of the handler of `InitLogger`. `lower` is `unicode.ToLower`.
unfoldable pub init_logger : (ℕ → ℕ) → Str → Level
init_logger lower level =
    let name = map lower (trim_space level) in
    if str_eq name (lit "debug")
    then level_debug
    else if str_eq name (lit "warn") || str_eq name (lit "warning")
    then level_warn
    else if str_eq name (lit "error")
    then level_error
    else level_info

-- What `InitTracer` stands on: the exporters, over HTTP to an endpoint without TLS, and the merge of
-- the default resource with the service's name.
pub record Telemetry (E Res : Type 0) : Type 0 where
  pub stdout_exporter : Reply E
  pub otlp_exporter : Str → Reply E
  pub merged_resource : Str → Reply Res

abbrev pub service_name : Str
service_name = lit "vois-speechmark-demo"

abbrev pub tracer_name : Str
tracer_name = lit "github.com/vodafone/vois-speechmark-demo"

-- The provider, with its exporter and its resource, and the name of the tracer.
pub record Tracing (E Res : Type 0) : Type 0 where
  pub exporter : E
  pub resource : Res
  pub name : Str

abbrev provider : {E Res : Type 0} → Reply E → Reply Res → Reply (Tracing E Res)
provider (error e) resource = error e
provider (value exporter) (error e) = error e
provider (value exporter) (value resource) =
    value (record { exporter = exporter; resource = resource; name = tracer_name })

unfoldable pub init_tracer : {E Res : Type 0} → Telemetry E Res → Str → Reply (Tracing E Res)
init_tracer t endpoint =
    provider (if is_empty endpoint then t.stdout_exporter else t.otlp_exporter endpoint)
      (t.merged_resource service_name)
