-- ===== src/Exec/Messages.antt =====
-- storage.py: the messages of the exceptions that the store raises.
use home_assistant_chat_comp.Prelude.{String, Option, none, some}
use home_assistant_chat_comp.Exec.{
  Error, integrity_error, identity_space_exhausted, invalid_display_name,
  password_must_be_12_to_1024_bytes, invalid_peer_id, invalid_ipv4_address, invalid_peer_port,
  invalid_tls_server_name, tls_name_requires_tls, invalid_peer_secret, peer_already_exists,
  peer_endpoint_conflict, invalid_device_label, device_key_conflict, device_revoked, device_limit,
  invalid_key_packages, unknown_device, key_package_limit, key_package_conflict,
  invalid_key_package_claimant, event_quota_exceeded, invalid_route, idempotency_conflict,
  replayed_message, recipient_not_found, event_conflict, invalid_limit, event_not_found,
  receipt_conflict,
}

-- the message of a `ValueError` of the store; the other exceptions are no `ValueError`
unfoldable pub message_of : Error → Option String
message_of integrity_error = none
message_of identity_space_exhausted = none
message_of invalid_display_name = some "invalid_display_name"
message_of password_must_be_12_to_1024_bytes = some "password_must_be_12_to_1024_bytes"
message_of invalid_peer_id = some "invalid_peer_id"
message_of invalid_ipv4_address = some "invalid_ipv4_address"
message_of invalid_peer_port = some "invalid_peer_port"
message_of invalid_tls_server_name = some "invalid_tls_server_name"
message_of tls_name_requires_tls = some "tls_name_requires_tls"
message_of invalid_peer_secret = some "invalid_peer_secret"
message_of peer_already_exists = some "peer_already_exists"
message_of peer_endpoint_conflict = some "peer_endpoint_conflict"
message_of invalid_device_label = some "invalid_device_label"
message_of device_key_conflict = some "device_key_conflict"
message_of device_revoked = some "device_revoked"
message_of device_limit = some "device_limit"
message_of invalid_key_packages = some "invalid_key_packages"
message_of unknown_device = some "unknown_device"
message_of key_package_limit = some "key_package_limit"
message_of key_package_conflict = some "key_package_conflict"
message_of invalid_key_package_claimant = some "invalid_key_package_claimant"
message_of event_quota_exceeded = some "event_quota_exceeded"
message_of invalid_route = some "invalid_route"
message_of idempotency_conflict = some "idempotency_conflict"
message_of replayed_message = some "replayed_message"
message_of recipient_not_found = some "recipient_not_found"
message_of event_conflict = some "event_conflict"
message_of invalid_limit = some "invalid_limit"
message_of event_not_found = some "event_not_found"
message_of receipt_conflict = some "receipt_conflict"
