-- ===== src/Config/Services.antt =====
-- internal/config/config.go: the validation of the queue, the status store, the exporter and the
-- sources of secrets.
use password_hook_service.Prelude.{
  not, ◌&&◌, ◌||◌, Option, none, some, if◌then◌else◌, ◌==◌, any, is_empty, Text, codes, same_text,
  trim_space, is_blank, pos, lebℤ, Unicode, lower,
}
use password_hook_service.Config.Texts.{has_prefix, has_suffix, contains}
use password_hook_service.Config.Defs.{Parsers, Config, and_then, reject_if, is_positive}

module _ (p : Parsers) where
  -- The validation of the status store, from the `switch` on SyncStatusStore.
  unfoldable pub validate_store : Config → Option Text
  validate_store c =
      if same_text c.sync_status_store (codes "memory")
      then none
      else if not (same_text c.sync_status_store (codes "redis"))
      then some (codes "SYNC_STATUS_STORE must be memory or redis")
      else reject_if (is_blank c.redis_host)
          (codes "REDIS_HOST is required when SYNC_STATUS_STORE=redis")
          (reject_if
            (contains (codes "://") c.redis_host
              || any (λ b. b == b'/' || b == b'@' || b == b':') c.redis_host)
            (codes "REDIS_HOST must be a host name without a scheme, path, or port")
            (reject_if (lebℤ c.redis_port (pos 0) || not (lebℤ c.redis_port (pos 65535)))
              (codes "REDIS_PORT must be between 1 and 65535 when SYNC_STATUS_STORE=redis")
              (reject_if (is_blank c.redis_key_prefix)
                (codes "REDIS_KEY_PREFIX is required when SYNC_STATUS_STORE=redis")
                (reject_if (not (lebℤ (pos 1000000) c.password_message_ttl))
                  (codes "PASSWORD_MESSAGE_TTL must be at least 1ms when SYNC_STATUS_STORE=redis")
                  (reject_if (not (lebℤ (pos 1000000) c.sync_status_terminal_ttl))
                    (codes
                      "SYNC_STATUS_TERMINAL_TTL must be at least 1ms when SYNC_STATUS_STORE=redis")
                    (reject_if (is_blank c.azure_client_id)
                      (codes "AZURE_CLIENT_ID is required when SYNC_STATUS_STORE=redis")
                      (reject_if (not (p.is_uuid c.azure_client_id))
                        (codes "AZURE_CLIENT_ID must be a valid UUID when SYNC_STATUS_STORE=redis")
                        none)))))))

  unfoldable pub validate_sync_status : Config → Option Text
  unfolding validate_store
  validate_sync_status c =
      and_then c.redis_port_err (and_then c.sync_status_terminal_ttl_err (validate_store c))

-- The `switch` on ServiceBusAuthMode.
validate_auth_mode : Unicode → Config → Option Text
validate_auth_mode u c =
    if is_empty c.service_bus_auth_mode
      || same_text c.service_bus_auth_mode (codes "connection_string")
    then reject_if (is_blank c.service_bus_connection_string)
        (codes "SERVICEBUS_CONNECTION_STRING is required") none
    else if same_text c.service_bus_auth_mode (codes "managed_identity")
    then (let namespace = lower u (trim_space c.service_bus_namespace_fqdn) in
        reject_if (is_empty namespace)
          (codes "SERVICEBUS_NAMESPACE_FQDN is required when SERVICEBUS_AUTH_MODE=managed_identity")
          (reject_if
            (contains (codes "://") namespace
              || not (has_suffix (codes ".servicebus.windows.net") namespace))
            (codes "SERVICEBUS_NAMESPACE_FQDN must be a Service Bus namespace host name") none))
    else some (codes "SERVICEBUS_AUTH_MODE must be connection_string or managed_identity")

unfoldable pub validate_service_bus : Unicode → Config → Option Text
unfolding validate_auth_mode
validate_service_bus u c = and_then c.password_message_ttl_err (
    and_then (validate_auth_mode u c) (
      reject_if (is_blank c.service_bus_queue_name) (codes "SERVICEBUS_QUEUE_NAME is required") (
        reject_if (is_blank c.service_bus_dead_letter_queue_name)
          (codes "SERVICEBUS_DEADLETTER_QUEUE_NAME is required")
          (reject_if (not (is_positive c.password_message_ttl))
            (codes "PasswordMessageTTL must be positive") none))))

unfoldable pub validate_observability : Config → Option Text
validate_observability c =
    if is_empty c.observability_exporter || same_text c.observability_exporter (codes "none")
    then none
    else if not (same_text c.observability_exporter (codes "azure_monitor"))
    then some (codes "OBSERVABILITY_EXPORTER must be none or azure_monitor")
    else reject_if (is_blank c.otlp_exporter_endpoint)
        (codes "OTEL_EXPORTER_OTLP_ENDPOINT is required when OBSERVABILITY_EXPORTER=azure_monitor")
        (reject_if (is_blank c.azure_monitor_metric_resource_id)
          (codes
            "AZURE_MONITOR_METRIC_RESOURCE_ID is required when OBSERVABILITY_EXPORTER=azure_monitor")
          (reject_if (is_blank c.azure_monitor_metric_region)
            (codes
              "AZURE_MONITOR_METRIC_REGION is required when OBSERVABILITY_EXPORTER=azure_monitor")
            (reject_if (is_blank c.azure_monitor_metric_namespace)
              (codes
                "AZURE_MONITOR_METRIC_NAMESPACE is required when OBSERVABILITY_EXPORTER=azure_monitor")
              none)))

-- The part of ValidateSecretLoadingInputs for a key vault.
validate_key_vault : Config → Option Text
validate_key_vault c =
    reject_if (is_blank c.key_vault_url)
      (codes "KEY_VAULT_URL is required when SECRETS_SOURCE=keyvault")
      (reject_if (not (has_prefix (codes "https://") c.key_vault_url))
        (codes "KEY_VAULT_URL must start with https://")
        (reject_if (is_blank c.key_vault_secret_names.hmac_secret)
          (codes "KEY_VAULT_HMAC_SECRET_NAME is required when SECRETS_SOURCE=keyvault")
          (reject_if
            (not (same_text c.service_bus_auth_mode (codes "managed_identity"))
              && is_blank c.key_vault_secret_names.service_bus_connection_string)
            (codes
              "KEY_VAULT_SERVICEBUS_CONNECTION_STRING_NAME is required when SECRETS_SOURCE=keyvault")
            (reject_if (is_blank c.key_vault_secret_names.graph_client_secret)
              (codes "KEY_VAULT_GRAPH_CLIENT_SECRET_NAME is required when SECRETS_SOURCE=keyvault")
              (reject_if (is_blank c.key_vault_secret_names.password_encryption_key)
                (codes
                  "KEY_VAULT_PASSWORD_ENCRYPTION_KEY_NAME is required when SECRETS_SOURCE=keyvault")
                none)))))

unfoldable pub validate_secret_loading_inputs : Config → Option Text
unfolding validate_key_vault
validate_secret_loading_inputs c =
    if is_empty c.secrets_source
    then some (codes "SECRETS_SOURCE is required (env or keyvault)")
    else if same_text c.secrets_source (codes "env")
    then none
    else if same_text c.secrets_source (codes "keyvault")
    then validate_key_vault c
    else some (codes "SECRETS_SOURCE must be env or keyvault")
