-- ===== src/Bootstrap/Sessions.antt =====
-- The sessions of src/lwm2m/bootstrap.rs: tokens and endpoints stay in step, and a device has one request in
-- flight at most.
use mathlib.Core.Option
use smart_garden_gateway_lwm.Prelude.{
  ℕ, ◌≡◌, ◌≢◌, refl, false, Option, none, some, List, [], ◌∷◌, Bytes, bytes_key, arith,
  Option-cases, inl, inr,
}
use smart_garden_gateway_lwm.Dict.{get, remove}
use smart_garden_gateway_lwm.Dict.Laws.{get-insert, get-remove, get-empty}
use smart_garden_gateway_lwm.Model.{Instant, Token}
use smart_garden_gateway_lwm.Bootstrap.{
  BootstrapSession, BootstrapInner, new, token_of, alloc_inner, begin, complete, is_pending,
  get_cert, drop_session, drop_sessions, stale_tokens, expire_stale,
}

-- Each session stands under a token, and the reverse index leads back to it.
pub record InStep (b : BootstrapInner) : Type 0 where
  pub sessions :
      (t : Token) (s : BootstrapSession)
      → get b.by_token t ≡ some s
      → get b.by_endpoint s.endpoint ≡ some t
  pub names :
      (e : Bytes) (t : Token)
      → get b.by_endpoint e ≡ some t
      → Option.map (λ s. s.endpoint) (get b.by_token t) ≡ some e

-- The token that is given out next stands for no session.
abbrev pub HasFreshToken : BootstrapInner → Type 0
HasFreshToken b = get b.by_token (token_of b.token_counter) ≡ none

pub new-InStep : (seed : ℕ) → InStep (new seed)
unfolding new
new-InStep seed = record {
  sessions = λ t s h. absurd (ground (arith, get-empty {V = BootstrapSession} t));
  names = λ e t h. absurd (ground (arith, get-empty {V = Token} e));
}

module _ (b : BootstrapInner) (v : InStep b) where
  pub begin-InStep : (e : Bytes) (now : Instant) → HasFreshToken b → InStep (begin b e now).1
  unfolding begin alloc_inner
  begin-InStep e now fresh = elim (Option-cases (get b.by_endpoint e)) [
    | inr (t, known) ↦ rw (known, begin) v
    | inl absent ↦
        let s : BootstrapSession = record {
          endpoint = e;
          started_at = now;
          pubkey_payload = none;
        } in
        let token = token_of b.token_counter in
        rw (absent, begin)
          (record {
            sessions = λ t x h. ground (
              arith,
              get-insert b.by_token token t s,
              get-insert b.by_endpoint e x.endpoint token,
              v.sessions t x,
            );
            names = λ n t h. ground (
              arith,
              get-insert b.by_token token t s,
              get-insert b.by_endpoint e n token,
              v.names n t,
            );
          })
  ]

  drop-InStep :
      (t : Token) (s : BootstrapSession)
      → get b.by_token t ≡ some s
      → InStep (record b {
        by_token = remove b.by_token t;
        by_endpoint = remove b.by_endpoint s.endpoint;
      })
  drop-InStep t s found = record {
    sessions = λ u x h. ground (
      arith,
      get-remove b.by_token t u,
      get-remove b.by_endpoint s.endpoint x.endpoint,
      v.sessions u x,
      v.sessions t s found,
      v.names s.endpoint t,
    );
    names = λ n u h. ground (
      arith,
      get-remove b.by_token t u,
      get-remove b.by_endpoint s.endpoint n,
      v.names n u,
      v.sessions t s found,
    );
  }

  pub complete-InStep : (t : Token) (payload : Bytes) → InStep (complete b t payload).1
  unfolding complete
  complete-InStep t payload = elim (Option-cases (get b.by_token t)) [
    | inl absent ↦ rw (absent, complete) v
    | inr (s, found) ↦
        let d = drop-InStep t s found in
        rw (found, complete) (record { sessions = d.sessions; names = d.names })
  ]

  drop_session-InStep : (t : Token) → InStep (drop_session b t)
  unfolding drop_session
  drop_session-InStep t = elim (Option-cases (get b.by_token t)) [
    | inl absent ↦ rw (absent, drop_session) v
    | inr (s, found) ↦ rw (found, drop_session) (drop-InStep t s found)
  ]

drop_sessions-InStep :
    (b : BootstrapInner) (ts : List Token) → InStep b → InStep (drop_sessions b ts)
unfolding drop_sessions
drop_sessions-InStep b [] v = v
drop_sessions-InStep b (t ∷ ts) v =
    drop_sessions-InStep (drop_session b t) ts (drop_session-InStep b v t)

pub expire_stale-InStep :
    (b : BootstrapInner) (max_secs : ℕ) (now : Instant)
    → InStep b
    → InStep (expire_stale b max_secs now)
unfolding expire_stale
expire_stale-InStep b max_secs now v = drop_sessions-InStep b (stale_tokens b max_secs now) v

module _ (b : BootstrapInner) (e : Bytes) (now : Instant) (t : Token) (mid : ℕ) where
  begin_index : (begin b e now).0 ≡ some (t, mid) → get (begin b e now).1.by_endpoint e ≡ some t
  unfolding begin alloc_inner
  begin_index h = ground (arith, get-insert b.by_endpoint e e (token_of b.token_counter))

  begin_session :
      (begin b e now).0 ≡ some (t, mid)
      → get (begin b e now).1.by_token t
        ≡ some (record { endpoint = e; started_at = now; pubkey_payload = none })
  unfolding begin alloc_inner
  begin_session h = ground (
    arith,
    get-insert b.by_token (token_of b.token_counter) t
        (record { endpoint = e; started_at = now; pubkey_payload = none }),
  )

begin_known :
    (b : BootstrapInner) (e : Bytes) (now : Instant) (t : Token)
    → get b.by_endpoint e ≡ some t
    → begin b e now ≡ (none, b)
unfolding begin
begin_known b e now t known = rw (known, begin) refl

begin_unknown :
    (b : BootstrapInner) (e : Bytes) (now : Instant)
    → get b.by_endpoint e ≡ none
    → (begin b e now).0 ≡ some (token_of b.token_counter, b.mid_counter)
unfolding begin alloc_inner
begin_unknown b e now absent = rw (absent, begin) refl

-- While a request for an endpoint is in flight no other one begins, and the state stays as it is.
pub begin-begin :
    (b : BootstrapInner) (e : Bytes) (now later : Instant) (t : Token) (mid : ℕ)
    → (begin b e now).0 ≡ some (t, mid)
    → begin (begin b e now).1 e later ≡ (none, (begin b e now).1)
begin-begin b e now later t mid h =
    begin_known (begin b e now).1 e later t (begin_index b e now t mid h)

-- What the answer to the request leaves: the session comes back with the payload, which is the
-- endpoint's certificate from now on; the token waits for nothing, and a new request can begin.
pub record Completed (e : Bytes) (now : Instant) (t : Token) (payload : Bytes)
    (out : Option BootstrapSession × BootstrapInner) : Type 0 where
  pub session :
      out.0 ≡ some (record { endpoint = e; started_at = now; pubkey_payload = some payload })
  pub certificate : get_cert out.1 e ≡ some payload
  pub answered : is_pending out.1 t ≡ false
  pub again : (later : Instant) → (begin out.1 e later).0 ≢ none

-- The answer under the token of a request that began returns its session with the answer as
-- certificate, which is then cached for the endpoint. The token is no longer pending, and another
-- request for the endpoint can begin at any later time.
pub complete-begin :
    (b : BootstrapInner) (e : Bytes) (now : Instant) (t : Token) (mid : ℕ) (payload : Bytes)
    → (begin b e now).0 ≡ some (t, mid)
    → Completed e now t payload (complete (begin b e now).1 t payload)
unfolding complete get_cert is_pending
complete-begin b e now t mid payload h =
    let b' = (begin b e now).1 in
    let found = begin_session b e now t mid h in
    rw (found, complete)
      (record {
        session = refl;
        certificate = ground (arith, get-insert b'.cert_cache e e payload);
        answered = ground (arith, get-remove b'.by_token t t);
        again = λ later none_began.
            ground (
              arith,
              begin_unknown (complete b' t payload).1 e later,
              get-remove b'.by_endpoint e e,
            );
      })
