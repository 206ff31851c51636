-- ===== src/Examples/Devices.antt =====
-- An upload to a device that is connected, and the device's exclusion (src/ipc/command.rs).
use smart_garden_gateway_lwm.Prelude.{
  ℕ, Option, ◌≡◌, refl, ite, true, false, none, some, List, [], ◌∷◌, Bytes, bytes, bytes_key,
  nat_key, ℕ_discrete, ok, arith, replicate,
}
use smart_garden_gateway_lwm.Dict.{Dict, empty, get, insert}
use smart_garden_gateway_lwm.Dict.Laws.{get-empty}
use smart_garden_gateway_lwm.Json.{Json, text, object, field, done, bool}
use smart_garden_gateway_lwm.Json.Merge
use smart_garden_gateway_lwm.Model
use smart_garden_gateway_lwm.Model.{
  Registration, v4, SocketAddr, DeviceId, addr_key, write, fota_path,
}
use smart_garden_gateway_lwm.Registry
use smart_garden_gateway_lwm.Registry.Valid.{IsValid, new-IsValid}
use smart_garden_gateway_lwm.Registry.Registering.{register_new-IsValid}
use smart_garden_gateway_lwm.Registry.Queries.{addr_and_id_by_endpoint}
use smart_garden_gateway_lwm.Bootstrap
use smart_garden_gateway_lwm.Bootstrap.Inclusion.{is_included}
use smart_garden_gateway_lwm.Ipc.{IpcState, Env, dropped, next_operation}
use smart_garden_gateway_lwm.Ipc.Values.{index}
use smart_garden_gateway_lwm.Ipc.Firmware.{
  UploadTask, first_block, begin_upload, upload_to, with_firmware, try_upload,
}
use smart_garden_gateway_lwm.Ipc.Exclusive.{FotaEvent, requested, acknowledged}
use smart_garden_gateway_lwm.Ipc.Guard.{IsHeldToTheEnd, begin_upload-IsHeldToTheEnd}
use smart_garden_gateway_lwm.Ipc.Requests.{reset_device, reset_taken, forget, handle_exclusion}
use smart_garden_gateway_lwm.Ipc.Exclusion.{addr_of, IsPersisted, AddrIsGone, handle_exclusion_lem}

abbrev env : Env
env = record {
  takes = λ op. true;
  answer = λ op. dropped;
  first_ack = λ op. true;
  meanwhile = λ op s. s;
  now = 0;
  now_unix = 0;
  base64_decode = λ s. some (replicate 600 7);
  float_text = λ v. none;
}

abbrev pump : Registration
pump = record {
  endpoint = bytes "ab";
  addr = v4 1 2;
  lifetime = 60;
  objects = [];
  object_versions = empty;
  lwm2m_version = bytes "1.1";
  binding_mode = bytes "U";
}

unfoldable state : IpcState
unfolding Registry.new Registry.register_new Bootstrap.new
state = record {
  bootstrap = Bootstrap.new 0;
  registry = (Registry.register_new Registry.new pump 0).1;
  ipso = record { objects = empty };
  next_op_id = 1;
  next_channel = 0;
  fota_locked = false;
}

abbrev payload : Json
payload = object (field (bytes "vo") (text (bytes "aa")) done)

abbrev upload : UploadTask
upload = record {
  device = bytes "ab";
  addr = v4 1 2;
  dev_id = 1;
  op = record {
    id = 1;
    command = write fota_path (replicate 600 7) 42;
    response_tx = 0;
    first_ack_tx = some 1;
    created_at = 0;
    attempts = 0;
  };
  phase = first_block;
}

abbrev found : Option (SocketAddr × DeviceId × Dict ℕ Bytes)
found = some (v4 1 2, 1, empty)

found_at : addr_and_id_by_endpoint state.registry (bytes "ab") ≡ ok found
unfolding state addr_and_id_by_endpoint Registry.new Registry.register_new get insert empty
    bytes_key ℕ_discrete Model.new_device
found_at = refl

locked : IpcState
locked = record state { fota_locked = true; next_op_id = 2; next_channel = 2 }

begins : begin_upload env (bytes "ab") payload state ≡ ok (some upload, locked)
unfolding begin_upload upload_to with_firmware try_upload next_operation locked state Merge.find
    bytes_key ℕ_discrete
begins = rw (found_at, begin_upload) refl

abbrev events : List FotaEvent
events = requested (bytes "ab") payload ∷ acknowledged 9 true ∷ []

unlocked : state.fota_locked ≡ false
unfolding state
unlocked = refl

begin_upload-IsHeldToTheEnd_example :
    (state.fota_locked ≡ false) × IsHeldToTheEnd env upload events events (locked, upload ∷ [])
begin_upload-IsHeldToTheEnd_example =
    begin_upload-IsHeldToTheEnd env (bytes "ab") payload state locked upload events events begins
      refl (refl, (refl, tt)) (refl, (refl, tt))

state-IsValid : IsValid (reset_device env (some (v4 1 2)) state).1.0.registry
unfolding state reset_device reset_taken next_operation Registry.new
state-IsValid =
    register_new-IsValid Registry.new pump 0 new-IsValid (get-empty (bytes "ab")) (omega arith)

handle_exclusion_example :
    let reset = reset_device env (addr_of found) state in
    let h = forget env (bytes "ab") (addr_of found) reset in
    (handle_exclusion env (bytes "ab") state ≡ ok h)
    × (index h.0 (bytes "success") ≡ bool true)
    × (is_included h.1.0.bootstrap (bytes "cd")
        ≡ ite
            (bytes_key.dec (bytes "cd") (bytes "ab"))
            false
            (is_included reset.1.0.bootstrap (bytes "cd")))
    × IsPersisted env (bytes "ab") reset.1.1 h.1
    × AddrIsGone reset.1.0.registry h.1.0.registry (addr_of found)
handle_exclusion_example =
    handle_exclusion_lem env (bytes "ab") state found found_at state-IsValid (bytes "cd")
