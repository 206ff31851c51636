-- ===== src/Ipc/Guard.antt =====
-- src/ipc/command.rs: how long the task of an upload keeps the guard of the lock.
use smart_garden_gateway_lwm.Prelude.{
  ℕ, ◌≡◌, refl, sym, ap, ◌∙◌, Bool, true, false, Option, none, some, List, [], ◌∷◌, Bytes, ◌==◌,
  Outcome, ok, panic, subst, All, ◌>>=◌, arith,
}
use smart_garden_gateway_lwm.Dict.{Dict}
use smart_garden_gateway_lwm.Json.{Json}
use smart_garden_gateway_lwm.Model.{SocketAddr, DeviceId}
use smart_garden_gateway_lwm.Registry.Queries.{addr_and_id_by_endpoint}
use smart_garden_gateway_lwm.Ipc.{IpcState, Env}
use smart_garden_gateway_lwm.Ipc.Firmware.{
  Phase, first_block, background, UploadTask, upload_to, begin_upload,
}
use smart_garden_gateway_lwm.Ipc.Exclusive.{
  FotaEvent, requested, refused, acknowledged, responded, elsewhere, World, on_refused,
  on_acknowledged, on_responded, settled, update_upload, begun, fota_step, fota_steps, Begun,
  begin_upload-Begun, upload_to-Begun,
}

-- The events that the task of an operation waits for.
abbrev pub concerns : ℕ → FotaEvent → Bool
concerns id (requested device payload) = false
concerns id (refused j) = id == j
concerns id (acknowledged j good) = id == j
concerns id (responded j) = id == j
concerns id (elsewhere registry bootstrap) = false

abbrev pub AllOfOthers : ℕ → List FotaEvent → Type 0
AllOfOthers id events = All (λ e. concerns id e ≡ false) events

-- One task has the guard, that of the upload.
abbrev pub IsHeldBy : UploadTask → World → Type 0
IsHeldBy u (s, us) = (s.fota_locked ≡ true) × (us ≡ u ∷ [])

begun-IsHeldBy :
    (u : UploadTask) (s : IpcState) (result : Option UploadTask × IpcState)
    → s.fota_locked ≡ true
    → Begun s result
    → IsHeldBy u (begun (s, u ∷ []) (ok result))
begun-IsHeldBy u s (none, s') held same = (same ∙ held, refl)
begun-IsHeldBy u s (some v, s') held (free, _) =
    let bad : true ≡ false = sym held ∙ free in absurd (cc)

begin-IsHeldBy :
    (env : Env) (u : UploadTask) (s : IpcState) (device : Bytes) (encoded : Option Bytes)
    (found : Outcome (Option (SocketAddr × DeviceId × Dict ℕ Bytes)))
    → s.fota_locked ≡ true
    → IsHeldBy u (begun (s, u ∷ []) (found >>= λ f. ok (upload_to env device encoded s f)))
begin-IsHeldBy env u s device encoded panic held = (held, refl)
begin-IsHeldBy env u s device encoded (ok f) held =
    begun-IsHeldBy u s (upload_to env device encoded s f) held
      (upload_to-Begun env device encoded s f)

update_other :
    (f : Phase → Option Phase) (j : ℕ) (u : UploadTask) (s : IpcState)
    → (u.op.id == j) ≡ false
    → update_upload f j (u ∷ []) s ≡ (s, u ∷ [])
unfolding update_upload
update_other f j u s other = rw other refl

update_own :
    (f : Phase → Option Phase) (u : UploadTask) (s : IpcState)
    → update_upload f u.op.id (u ∷ []) s ≡ settled u [] s (f u.phase)
unfolding update_upload
update_own f u s = let same : (u.op.id == u.op.id) ≡ true = ground arith in rw same refl

step-IsHeldBy :
    (env : Env) (u : UploadTask) (e : FotaEvent) (s : IpcState)
    → concerns u.op.id e ≡ false
    → s.fota_locked ≡ true
    → IsHeldBy u (fota_step env e (s, u ∷ []))
unfolding fota_step begin_upload
step-IsHeldBy env u (requested device payload) s h held =
    begin-IsHeldBy env u s device _ (addr_and_id_by_endpoint s.registry device) held
step-IsHeldBy env u (refused j) s h held =
    subst (IsHeldBy u) (sym (update_other on_refused j u s h)) (held, refl)
step-IsHeldBy env u (acknowledged j good) s h held =
    subst (IsHeldBy u) (sym (update_other (on_acknowledged good) j u s h)) (held, refl)
step-IsHeldBy env u (responded j) s h held =
    subst (IsHeldBy u) (sym (update_other on_responded j u s h)) (held, refl)
step-IsHeldBy env u (elsewhere registry bootstrap) s h held = (held, refl)

steps-IsHeldBy :
    (env : Env) (u : UploadTask) (events : List FotaEvent) (w : World)
    → AllOfOthers u.op.id events
    → IsHeldBy u w
    → IsHeldBy u (fota_steps env events w)
unfolding fota_steps
steps-IsHeldBy env u [] w others held = held
steps-IsHeldBy env u (e ∷ events) (s, us) (other, others) (held, is) =
    steps-IsHeldBy env u events (fota_step env e (s, us)) others (
      subst (λ us. IsHeldBy u (fota_step env e (s, us))) (sym is)
        (step-IsHeldBy env u e s other held))

-- An event that the task waits for, in a world where it has the guard.
own_step :
    (f : Phase → Option Phase) (u : UploadTask) (w : World)
    → IsHeldBy u w
    → update_upload f u.op.id w.1 w.0 ≡ settled u [] w.0 (f u.phase)
own_step f u (s, us) (held, is) = ap (λ us. update_upload f u.op.id us s) is ∙ update_own f u s

-- The guard of an upload in blocks, at the three stages of its wait.
abbrev pub IsHeldToTheEnd : Env → UploadTask → List FotaEvent → List FotaEvent → World → Type 0
IsHeldToTheEnd env u first later w =
    let before = fota_steps env first w in
    let behind = fota_steps env later (fota_step env (acknowledged u.op.id true) before) in
    let end = fota_step env (responded u.op.id) behind in
    IsHeldBy u before
    × IsHeldBy (record u { phase = background }) behind
    × (end.0.fota_locked ≡ false)
    × (end.1 ≡ [])

-- When a write of firmware in blocks is begun, the lock was free and its task takes the guard. While
-- it waits for the acknowledgement of the first block, and behind that while it waits for the
-- response, it keeps the guard and no other task gets one, whatever comes in for other operations and
-- requests for any device included. The response, or the time-out of the wait for it, frees the lock.
pub begin_upload-IsHeldToTheEnd :
    (env : Env) (device : Bytes) (payload : Json) (s s' : IpcState) (u : UploadTask)
    (first later : List FotaEvent)
    → begin_upload env device payload s ≡ ok (some u, s')
    → u.phase ≡ first_block
    → AllOfOthers u.op.id first
    → AllOfOthers u.op.id later
    → (s.fota_locked ≡ false) × IsHeldToTheEnd env u first later (s', u ∷ [])
unfolding fota_step
begin_upload-IsHeldToTheEnd env device payload s s' u first later begins in_blocks others others' =
    let (free, held) = begin_upload-Begun env device payload s u s' begins in
    let before = fota_steps env first (s', u ∷ []) in
    let still = steps-IsHeldBy env u first (s', u ∷ []) others (held, refl) in
    let u' = record u { phase = background } in
    let acked : IsHeldBy u' (fota_step env (acknowledged u.op.id true) before) =
      subst (IsHeldBy u')
        (sym (
          own_step (on_acknowledged true) u before still
          ∙ ap (settled u [] before.0) (go in_blocks)))
        (still.0, refl) in
    let behind = fota_steps env later (fota_step env (acknowledged u.op.id true) before) in
    let later_still =
      steps-IsHeldBy env u' later (fota_step env (acknowledged u.op.id true) before) others'
        acked in
    let over = own_step on_responded u' behind later_still in
    (free, (still, later_still, ap (λ w. w.0.fota_locked) over, ap (λ w. w.1) over))
  where
    go : u.phase ≡ first_block → on_acknowledged true u.phase ≡ some background
    go e = ap (on_acknowledged true) e
