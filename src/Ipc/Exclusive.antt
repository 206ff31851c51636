-- ===== src/Ipc/Exclusive.antt =====
-- src/ipc/command.rs: the lock of the firmware uploads, whatever the order in which requests, answers and
-- time-outs come in. An upload here is a task that waits with the lock's guard. It ends with the wait,
-- by a response or by the time-out of the wait; the block-wise write of src/lwm2m/client.rs, which is a
-- task of its own, may go on behind a time-out.
use smart_garden_gateway_lwm.Prelude.{
  ℕ, ◌≡◌, refl, Bool, true, false, Option, none, some, List, [], ◌∷◌, Bytes, ◌==◌, if◌then◌else◌,
  Outcome, ok, panic, subst, bytes, ◌>>=◌,
}
use smart_garden_gateway_lwm.Dict.{Dict}
use smart_garden_gateway_lwm.Json.{Json}
use smart_garden_gateway_lwm.Model.{SocketAddr, DeviceId, PendingOperation}
use smart_garden_gateway_lwm.Registry.{RegistryInner}
use smart_garden_gateway_lwm.Registry.Queries.{addr_and_id_by_endpoint}
use smart_garden_gateway_lwm.Bootstrap.{BootstrapInner}
use smart_garden_gateway_lwm.Ipc.{IpcState, Env, next_operation}
use smart_garden_gateway_lwm.Ipc.Values.{index, as_str}
use smart_garden_gateway_lwm.Ipc.Firmware.{
  Phase, single, first_block, background, UploadTask, phase_of, with_channels, try_upload,
  with_firmware, decode_firmware, upload_to, begin_upload, unlock,
}

-- What happens to the uploads, each by the identifier of its operation: a request, a send that the
-- channel refuses, an acknowledgement of the first block (or none in time, or an error), a response
-- (or none in time, or an error), and changes of the rest of the server.
pub data FotaEvent : Type 0 where
  requested : Bytes → Json → FotaEvent
  refused : ℕ → FotaEvent
  acknowledged : ℕ → Bool → FotaEvent
  responded : ℕ → FotaEvent
  elsewhere : RegistryInner → BootstrapInner → FotaEvent

-- The state, and the uploads whose tasks hold the guard.
abbrev pub World : Type 0
World = IpcState × List UploadTask

-- The phase that the task goes on in, or none when it drops the guard. `on_responded` is the response
-- or the time-out of the wait for it, after which the transfer of the blocks may still go on.
unfoldable pub on_refused : Phase → Option Phase
on_refused single = none
on_refused first_block = none
on_refused background = some background

unfoldable pub on_acknowledged : Bool → Phase → Option Phase
on_acknowledged good single = some single
on_acknowledged good background = some background
on_acknowledged true first_block = some background
on_acknowledged false first_block = none

unfoldable pub on_responded : Phase → Option Phase
on_responded single = none
on_responded first_block = some first_block
on_responded background = none

abbrev pub settled : UploadTask → List UploadTask → IpcState → Option Phase → World
settled u us s (some phase) = (s, record u { phase = phase } ∷ us)
settled u us s none = (unlock s, us)

unfoldable pub update_upload : (Phase → Option Phase) → ℕ → List UploadTask → IpcState → World
update_upload f id [] s = (s, [])
update_upload f id (u ∷ us) s =
    let rest = update_upload f id us s in
    if u.op.id == id then settled u us s (f u.phase) else (rest.0, u ∷ rest.1)

-- A task that panics in the search for the device has no guard yet.
abbrev pub begun : World → Outcome (Option UploadTask × IpcState) → World
begun w panic = w
begun (s, us) (ok (none, s')) = (s', us)
begun (s, us) (ok (some u, s')) = (s', u ∷ us)

unfoldable pub fota_step : Env → FotaEvent → World → World
unfolding begin_upload update_upload on_refused on_acknowledged on_responded
fota_step env (requested device payload) (s, us) = begun (s, us) (begin_upload env device payload s)
fota_step env (refused id) (s, us) = update_upload on_refused id us s
fota_step env (acknowledged id good) (s, us) = update_upload (on_acknowledged good) id us s
fota_step env (responded id) (s, us) = update_upload on_responded id us s
fota_step env (elsewhere registry bootstrap) (s, us) =
    (record s { registry = registry; bootstrap = bootstrap }, us)

unfoldable pub fota_steps : Env → List FotaEvent → World → World
unfolding fota_step
fota_steps env [] w = w
fota_steps env (e ∷ events) w = fota_steps env events (fota_step env e w)

-- An upload is begun only with a lock that was free.
abbrev pub Begun : IpcState → Option UploadTask × IpcState → Type 0
Begun s (none, s') = s'.fota_locked ≡ s.fota_locked
Begun s (some u, s') = (s.fota_locked ≡ false) × (s'.fota_locked ≡ true)

with_channels-locked :
    (phase : Phase) (op : PendingOperation) (s : IpcState)
    → (with_channels phase (op, s)).1.fota_locked ≡ s.fota_locked
with_channels-locked single op s = refl
with_channels-locked background op s = refl
with_channels-locked first_block op s = refl

try_upload-Begun :
    (env : Env) (device : Bytes) (found : SocketAddr × DeviceId × Dict ℕ Bytes) (value : Bytes)
    (s : IpcState) (locked : Bool)
    → s.fota_locked ≡ locked
    → Begun s (try_upload env device found value s locked)
unfolding try_upload next_operation
try_upload-Begun env device found value s true e = refl
try_upload-Begun env device found value s false e = (e, with_channels-locked (phase_of value) _ _)

with_firmware-Begun :
    (env : Env) (device : Bytes) (found : SocketAddr × DeviceId × Dict ℕ Bytes)
    (value : Option Bytes) (s : IpcState)
    → Begun s (with_firmware env device found value s)
unfolding with_firmware
with_firmware-Begun env device found none s = refl
with_firmware-Begun env device found (some value) s =
    try_upload-Begun env device found value s s.fota_locked refl

pub upload_to-Begun :
    (env : Env) (device : Bytes) (encoded : Option Bytes) (s : IpcState)
    (found : Option (SocketAddr × DeviceId × Dict ℕ Bytes))
    → Begun s (upload_to env device encoded s found)
unfolding upload_to
upload_to-Begun env device encoded s none = refl
upload_to-Begun env device encoded s (some found) =
    with_firmware-Begun env device found (decode_firmware env encoded) s

pub begin_upload-Begun :
    (env : Env) (device : Bytes) (payload : Json) (s : IpcState) (u : UploadTask) (s' : IpcState)
    → begin_upload env device payload s ≡ ok (some u, s')
    → (s.fota_locked ≡ false) × (s'.fota_locked ≡ true)
unfolding begin_upload
begin_upload-Begun env device payload s u s' h = began (addr_and_id_by_endpoint s.registry device) h
  where
    began :
        (found : Outcome (Option (SocketAddr × DeviceId × Dict ℕ Bytes)))
        → (found >>= λ f. ok (upload_to env device (as_str (index payload (bytes "vo"))) s f))
          ≡ ok (some u, s')
        → (s.fota_locked ≡ false) × (s'.fota_locked ≡ true)
    began panic e = absurd (cc)
    began (ok f) e =
        let out = upload_to env device (as_str (index payload (bytes "vo"))) s f in
        let same : out ≡ (some u, s') = cc in
        subst (Begun s) same (upload_to-Begun env device (as_str (index payload (bytes "vo"))) s f)
