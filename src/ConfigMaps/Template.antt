-- ===== src/ConfigMaps/Template.antt =====
-- The text of the configuration file of Sesame, by its lines: the template of
-- internal/objects/configmap/configmap.go and its execution.
use sesame_operator.Prelude.{String, Bool, List, [], ◌∷◌, ◌++◌, sprintf, ◌==◌, if◌then◌else◌}

-- `sesameConfig`
pub record SesameConfig : Type 0 where
  pub gateway_controller_name : String
  pub enable_external_name_service : Bool

-- Each line ends with a line feed.
unfoldable pub text_of_lines : List String → String
text_of_lines [] = ""
text_of_lines (line ∷ lines) = sprintf (line ∷ "\n" ∷ text_of_lines lines ∷ [])

abbrev server_lines : List String
server_lines =
    "#" ∷ "# server:" ∷ "#   determine which XDS Server implementation to utilize in Sesame."
    ∷ "#   xds-server-type: sesame" ∷ "#" ∷ "# Specify the Gateway API configuration." ∷ []

-- `{{if .GatewayControllerName}}…{{else}}…{{end}}`: a template takes the empty text for false.
unfoldable pub gateway_lines : SesameConfig → List String
gateway_lines cfg =
    if cfg.gateway_controller_name == ""
    then "# gateway:" ∷ "#   controllerName: projectsesame.io/projectsesame/sesame" ∷ []
    else "gateway:" ∷ sprintf ("  controllerName: " ∷ cfg.gateway_controller_name ∷ []) ∷ []

abbrev cluster_lines : List String
cluster_lines =
    "#" ∷ "# should sesame expect to be running inside a k8s cluster" ∷ "# incluster: true" ∷ "#"
    ∷ "# path to kubeconfig (if not running inside a k8s cluster)"
    ∷ "# kubeconfig: /path/to/.kube/config" ∷ "#"
    ∷ "# Disable RFC-compliant behavior to strip \"Content-Length\" header if"
    ∷ "# \"Tranfer-Encoding: chunked\" is also set." ∷ "# disableAllowChunkedLength: false"
    ∷ "# Disable HTTPProxy permitInsecure field" ∷ "disablePermitInsecure: false" ∷ "tls:"
    ∷ "# minimum TLS version that Sesame will negotiate" ∷ "# minimum-protocol-version: \"1.2\""
    ∷ "# TLS ciphers to be supported by Envoy TLS listeners when negotiating" ∷ "# TLS 1.2."
    ∷ "# cipher-suites:" ∷ "# - '[ECDHE-ECDSA-AES128-GCM-SHA256|ECDHE-ECDSA-CHACHA20-POLY1305]'"
    ∷ "# - '[ECDHE-RSA-AES128-GCM-SHA256|ECDHE-RSA-CHACHA20-POLY1305]'"
    ∷ "# - 'ECDHE-ECDSA-AES256-GCM-SHA384'" ∷ "# - 'ECDHE-RSA-AES256-GCM-SHA384'"
    ∷ "# Defines the Kubernetes name/namespace matching a secret to use"
    ∷ "# as the fallback certificate when requests which don't match the"
    ∷ "# SNI defined for a vhost." ∷ "  fallback-certificate:" ∷ "#   name: fallback-secret-name"
    ∷ "#   namespace: projectsesame" ∷ "  envoy-client-certificate:"
    ∷ "#   name: envoy-client-cert-secret-name" ∷ "#   namespace: projectsesame"
    ∷ "# The following config shows the defaults for the leader election." ∷ "# leaderelection:"
    ∷ "#   configmap-name: leader-elect" ∷ "#   configmap-namespace: projectsesame" ∷ "####"
    ∷ "# ExternalName Services are disabled by default due to CVE-2021-XXXXX"
    ∷ "# You can re-enable them by setting this setting to \"true\"."
    ∷ "# This is not recommended without understanding the security implications."
    ∷ "# Please see the advisory at https://github.com/projectsesame/sesame/security/advisories/GHSA-5ph6-qq5x-7jwc for the details."
    ∷ []

-- `{{if .EnableExternalNameService}}…{{else}}…{{end}}`
unfoldable pub external_name_lines : SesameConfig → List String
external_name_lines cfg =
    if cfg.enable_external_name_service
    then "enableExternalNameService: true" ∷ []
    else "# enableExternalNameService: false" ∷ []

abbrev default_lines : List String
default_lines =
    "##" ∷ "### Logging options" ∷ "# Default setting" ∷ "accesslog-format: envoy"
    ∷ "# To enable JSON logging in Envoy" ∷ "# accesslog-format: json"
    ∷ "# The default fields that will be logged are specified below."
    ∷ "# To customize this list, just add or remove entries."
    ∷ "# The canonical list is available at"
    ∷ "# https://godoc.org/github.com/projectsesame/sesame/internal/envoy#JSONFields"
    ∷ "# json-fields:" ∷ "#   - \"@timestamp\"" ∷ "#   - \"authority\"" ∷ "#   - \"bytes_received\""
    ∷ "#   - \"bytes_sent\"" ∷ "#   - \"downstream_local_address\""
    ∷ "#   - \"downstream_remote_address\"" ∷ "#   - \"duration\"" ∷ "#   - \"method\""
    ∷ "#   - \"path\"" ∷ "#   - \"protocol\"" ∷ "#   - \"request_id\""
    ∷ "#   - \"requested_server_name\"" ∷ "#   - \"response_code\"" ∷ "#   - \"response_flags\""
    ∷ "#   - \"uber_trace_id\"" ∷ "#   - \"upstream_cluster\"" ∷ "#   - \"upstream_host\""
    ∷ "#   - \"upstream_local_address\"" ∷ "#   - \"upstream_service_time\""
    ∷ "#   - \"user_agent\"" ∷ "#   - \"x_forwarded_for\"" ∷ "#" ∷ "# default-http-versions:"
    ∷ "# - \"HTTP/2\"" ∷ "# - \"HTTP/1.1\"" ∷ "#"
    ∷ "# The following shows the default proxy timeout settings." ∷ "# timeouts:"
    ∷ "#   request-timeout: infinity" ∷ "#   connection-idle-timeout: 60s"
    ∷ "#   stream-idle-timeout: 5m" ∷ "#   max-connection-duration: infinity"
    ∷ "#   delayed-close-timeout: 1s" ∷ "#   connection-shutdown-grace-period: 5s" ∷ "#"
    ∷ "# Envoy cluster settings." ∷ "# cluster:" ∷ "#   configure the cluster dns lookup family"
    ∷ "#   valid options are: auto (default), v4, v6" ∷ "#   dns-lookup-family: auto" ∷ "#"
    ∷ "# Envoy network settings." ∷ "# network:"
    ∷ "#   Configure the number of additional ingress proxy hops from the"
    ∷ "#   right side of the x-forwarded-for HTTP header to trust." ∷ "#   num-trusted-hops: 0" ∷ []

-- What `sesameConfigMapTemplate.Execute` writes. It never fails: the fields exist, and a buffer
-- takes every text.
unfoldable pub sesame_config_map_template : SesameConfig → String
unfolding text_of_lines gateway_lines external_name_lines
sesame_config_map_template cfg =
    text_of_lines (
      server_lines
      ++ gateway_lines cfg
      ++ cluster_lines
      ++ external_name_lines cfg
      ++ default_lines)
