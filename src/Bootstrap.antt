-- ===== src/Bootstrap.antt =====
-- The bootstrap registry of src/lwm2m/bootstrap.rs: sessions that wait for a device's certificate,
-- the certificates, and the allocation of tokens and message identifiers.
pub mod Cbor
pub mod Objects
pub mod Inclusion
pub mod Sessions
pub mod Approval
pub mod Der
use smart_garden_gateway_lwm.Prelude.{
  ℕ, ◌+◌, ◌%◌, ◌/◌, ◌*◌, ◌^◌, Bool, true, false, Option, none, some, List, [], ◌∷◌, map, Bytes,
  bytes_key, nat_key, ltb, keep_if, if◌then◌else◌,
}
use smart_garden_gateway_lwm.Dict.{Dict, empty, get, insert, remove, contains_key}
use smart_garden_gateway_lwm.Model.{Instant, elapsed, as_secs, Token, Sender}

pub record BootstrapSession : Type 0 where
  pub endpoint : Bytes
  pub started_at : Instant
  pub pubkey_payload : Option Bytes

-- `RegistryInner`, with the counter of tokens beside it. A `HashSet` is a map to `Unit`.
pub record BootstrapInner : Type 0 where
  pub by_token : Dict Token BootstrapSession
  pub by_endpoint : Dict Bytes Token
  pub cert_cache : Dict Bytes Bytes
  pub approved : Dict Bytes (Unit {0})
  pub includable_ids : Dict Bytes ℕ
  pub includable_by_id : Dict ℕ Bytes
  pub next_includable_id : ℕ
  pub included : Dict Bytes (Unit {0})
  pub mid_counter : ℕ
  pub write_acks : Dict Token Sender
  pub token_counter : ℕ

-- `seed` is the sub-second part of the wall clock in nanoseconds. The key pair that `new` draws, the
-- network key and the server's URI are no part of this state.
unfoldable pub new : ℕ → BootstrapInner
new seed = record {
  by_token = empty;
  by_endpoint = empty;
  cert_cache = empty;
  approved = empty;
  includable_ids = empty;
  includable_by_id = empty;
  next_includable_id = 1;
  included = empty;
  mid_counter = seed / 4 % 2 ^ 16;
  write_acks = empty;
  token_counter = 2 ^ 31 + seed % 2 ^ 31;
}

-- `[0u8; 8]` with `id.to_le_bytes()` in its first four bytes.
unfoldable pub token_of : ℕ → Token
token_of id =
    (id % 256) ∷ (id / 256 % 256) ∷ (id / 65536 % 256) ∷ (id / 16777216 % 256) ∷ 0 ∷ 0 ∷ 0 ∷ 0 ∷ []

unfoldable pub alloc_inner : BootstrapInner → (Token × ℕ) × BootstrapInner
unfolding token_of
alloc_inner b = (
  (token_of b.token_counter, b.mid_counter),
  record b {
    token_counter = (b.token_counter + 1) % 2 ^ 32;
    mid_counter = (b.mid_counter + 1) % 2 ^ 16;
  },
)

unfoldable pub begin : BootstrapInner → Bytes → Instant → Option (Token × ℕ) × BootstrapInner
unfolding alloc_inner
begin b endpoint now = elim (get b.by_endpoint endpoint) [
  | some t ↦ (none, b)
  | none ↦
      let ((token, mid), b') = alloc_inner b in
      (
        some (token, mid),
        record b' {
          by_endpoint = insert b'.by_endpoint endpoint token;
          by_token =
              insert b'.by_token token
                (record { endpoint = endpoint; started_at = now; pubkey_payload = none });
        },
      )
]

unfoldable pub complete : BootstrapInner → Token → Bytes → Option BootstrapSession × BootstrapInner
complete b token payload = elim (get b.by_token token) [
  | none ↦ (none, b)
  | some session ↦ (
    some (record session { pubkey_payload = some payload }),
    record b {
      by_token = remove b.by_token token;
      by_endpoint = remove b.by_endpoint session.endpoint;
      cert_cache = insert b.cert_cache session.endpoint payload;
    },
  )
]

unfoldable pub is_pending : BootstrapInner → Token → Bool
is_pending b token = contains_key b.by_token token

unfoldable pub has_cert : BootstrapInner → Bytes → Bool
has_cert b endpoint = contains_key b.cert_cache endpoint

unfoldable pub get_cert : BootstrapInner → Bytes → Option Bytes
get_cert b endpoint = get b.cert_cache endpoint

unfoldable pub remove_from_cert_cache : BootstrapInner → Bytes → BootstrapInner
remove_from_cert_cache b endpoint = record b { cert_cache = remove b.cert_cache endpoint }

-- A sender that is there under the token is dropped.
unfoldable pub register_write_ack : BootstrapInner → Token → Sender → BootstrapInner
register_write_ack b token tx = record b { write_acks = insert b.write_acks token tx }

-- The sender that is fired, if there is one, gets `success`.
unfoldable pub complete_write_ack :
    BootstrapInner → Token → Bool → (Bool × Option (Sender × Bool)) × BootstrapInner
complete_write_ack b token success = elim (get b.write_acks token) [
  | none ↦ ((false, none), b)
  | some tx ↦ ((true, some (tx, success)), record b { write_acks = remove b.write_acks token })
]

unfoldable pub cancel_write_ack : BootstrapInner → Token → BootstrapInner
cancel_write_ack b token = record b { write_acks = remove b.write_acks token }

unfoldable pub stale_tokens : BootstrapInner → ℕ → Instant → List Token
stale_tokens b max_secs now =
    map (λ e. e.0)
      (keep_if (λ e. ltb max_secs (as_secs (elapsed now e.1.started_at))) b.by_token.entries)

unfoldable pub drop_session : BootstrapInner → Token → BootstrapInner
drop_session b token = elim (get b.by_token token) [
  | none ↦ b
  | some s ↦ record b {
    by_token = remove b.by_token token;
    by_endpoint = remove b.by_endpoint s.endpoint;
  }
]

unfoldable pub drop_sessions : BootstrapInner → List Token → BootstrapInner
unfolding drop_session
drop_sessions b [] = b
drop_sessions b (token ∷ tokens) = drop_sessions (drop_session b token) tokens

unfoldable pub expire_stale : BootstrapInner → ℕ → Instant → BootstrapInner
unfolding stale_tokens drop_sessions
expire_stale b max_secs now = drop_sessions b (stale_tokens b max_secs now)
