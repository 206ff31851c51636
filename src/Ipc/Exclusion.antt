-- ===== src/Ipc/Exclusion.antt =====
-- src/ipc/command.rs: the exclusion of a device, which does not depend on the device.
use mathlib.Core.Option
use smart_garden_gateway_lwm.Prelude.{
  ℕ, ℕ_discrete, ◌≡◌, refl, ap, ◌∙◌, sym, subst, ite, true, false, Option, none, some, List, [],
  ◌∷◌, Bytes, bytes, bytes_key, ok, ◌>>=◌, arith, Elem, inl, inr, if_pos, ◌++◌, Option-cases,
  nat_key,
}
use smart_garden_gateway_lwm.Dict.{Dict, get, find, remove, keys}
use smart_garden_gateway_lwm.Dict.Laws.{get-remove}
use smart_garden_gateway_lwm.Json.{bool}
use smart_garden_gateway_lwm.Json.Merge
use smart_garden_gateway_lwm.Model.{SocketAddr, addr_key, DeviceId, Device}
use smart_garden_gateway_lwm.Registry.{RegistryInner}
use smart_garden_gateway_lwm.Registry.Persisted.{snapshot}
use smart_garden_gateway_lwm.Registry.Sweep.{remove_by_addr}
use smart_garden_gateway_lwm.Registry.Valid.{IsValid}
use smart_garden_gateway_lwm.Registry.Kept.{device_at}
use smart_garden_gateway_lwm.Registry.Queries.{addr_and_id_by_endpoint}
use smart_garden_gateway_lwm.Bootstrap.{BootstrapInner}
use smart_garden_gateway_lwm.Bootstrap.Inclusion.{is_included, unmark_included, included_list}
use smart_garden_gateway_lwm.Ipc.{IpcState, Env, IpcEffect, persist_exclusion}
use smart_garden_gateway_lwm.Ipc.Values.{index}
use smart_garden_gateway_lwm.Ipc.Requests.{reset_device, removed_from, forget, handle_exclusion}

-- A key that is not found is not among the keys.
absent_key :
    {V : Type 0} (k : Bytes) (l : List (Bytes × V))
    → find k l ≡ none
    → ¬ Elem k (keys (record { entries = l }))
unfolding find
absent_key k [] h = λ e. e
absent_key k ((j, v) ∷ l) h =
    elim (bytes_key.dec k j)
        as (λ d. ite d (some v) (find k l) ≡ none → ¬ Elem k (j ∷ keys (record { entries = l }))) [
          | yes p ↦ λ h. absurd (cc)
          | no n ↦ λ h e. elim e [ inl same ↦ n same | inr later ↦ absent_key k l h later ]
        ]
      h

get_absent-keys : {V : Type 0} (d : Dict Bytes V) (k : Bytes) → get d k ≡ none → ¬ Elem k (keys d)
unfolding get
get_absent-keys d k h = absent_key k d.entries h

-- The address at which a device is connected.
abbrev pub addr_of : Option (SocketAddr × DeviceId × Dict ℕ Bytes) → Option SocketAddr
addr_of found = Option.map (λ f. f.0) found

removed_from-bootstrap :
    (s : IpcState) (addr : Option SocketAddr) → (removed_from s addr).bootstrap ≡ s.bootstrap
unfolding removed_from
removed_from-bootstrap s none = refl
removed_from-bootstrap s (some addr) = refl

unmarked :
    (b : BootstrapInner) (device x : Bytes)
    → is_included (unmark_included b device) x
      ≡ ite (bytes_key.dec x device) false (is_included b x)
unfolding is_included unmark_included
unmarked b device x = ground (arith, get-remove b.included device x)

unmarked-keys :
    (b : BootstrapInner) (device : Bytes) → ¬ Elem device (included_list (unmark_included b device))
unfolding included_list unmark_included
unmarked-keys b device = get_absent-keys (remove b.included device) device (
    get-remove b.included device device
    ∙ if_pos (bytes_key.dec device device) refl none (get b.included device))

-- The device at an address is gone: neither its identifier nor its endpoint nor the address is known.
abbrev pub IsGone : RegistryInner → RegistryInner → SocketAddr → Type 0
IsGone r r' a =
    (get r'.by_addr a ≡ none)
    × ((id : DeviceId) (d : Device)
        → get r.by_addr a ≡ some id
        → get r.by_id id ≡ some d
        → (get r'.by_id id ≡ none) × (get r'.by_endpoint d.endpoint ≡ none))

remove_by_addr-IsGone :
    (r : RegistryInner) (a : SocketAddr) → IsValid r → IsGone r (remove_by_addr r a).1 a
unfolding remove_by_addr
remove_by_addr-IsGone r a v = elim (Option-cases (get r.by_addr a)) [
  | inl absent ↦ rw (absent, remove_by_addr) (absent, λ id d at found. absurd (cc))
  | inr (i, at) ↦
      let (x, found, same) = device_at r v a i at in
      rw (at, found, remove_by_addr)
        (
          ground (arith, get-remove r.by_addr a a),
          λ id d at_id at_d. (
            ground (arith, get-remove r.by_id i id),
            ground (arith, get-remove r.by_endpoint x.endpoint d.endpoint),
          ),
        )
]

-- At the address of the device that is excluded, if it is connected, there is no device any more.
abbrev pub AddrIsGone : RegistryInner → RegistryInner → Option SocketAddr → Type 0
AddrIsGone r r' none = r' ≡ r
AddrIsGone r r' (some a) = IsGone r r' a

removed_from-AddrIsGone :
    (s : IpcState) (b : BootstrapInner) (addr : Option SocketAddr)
    → IsValid s.registry
    → AddrIsGone s.registry (removed_from (record s { bootstrap = b }) addr).registry addr
unfolding removed_from
removed_from-AddrIsGone s b none v = refl
removed_from-AddrIsGone s b (some a) v = remove_by_addr-IsGone s.registry a v

-- What an exclusion persists, behind what the reset has set off: a list without the device and with
-- all others that are included, and the registry.
abbrev pub IsPersisted : Env → Bytes → List IpcEffect → IpcState × List IpcEffect → Type 0
IsPersisted env device before (s, effects) =
    (listed : List Bytes) × (effects
      ≡ before ++ (persist_exclusion listed device (snapshot s.registry env.now env.now_unix) ∷ []))
    × (¬ Elem device listed)
    × (listed ≡ included_list s.bootstrap)

module _ (env : Env) (device : Bytes) (addr : Option SocketAddr)
    (reset : Option Bytes × (IpcState × List IpcEffect)) where
  forget-bootstrap :
      (forget env device addr reset).1.0.bootstrap ≡ unmark_included reset.1.0.bootstrap device
  unfolding forget
  forget-bootstrap =
      removed_from-bootstrap
        (record reset.1.0 { bootstrap = unmark_included reset.1.0.bootstrap device }) addr

  forget-IsPersisted : IsPersisted env device reset.1.1 (forget env device addr reset).1
  unfolding forget
  forget-IsPersisted =
      let s' =
        removed_from (record reset.1.0 { bootstrap = unmark_included reset.1.0.bootstrap device })
          addr in
      (
        included_list s'.bootstrap,
        refl,
        subst (λ c. ¬ Elem device (included_list c)) (sym forget-bootstrap)
            (unmarked-keys reset.1.0.bootstrap device),
        refl,
      )

  forget-AddrIsGone :
      IsValid reset.1.0.registry
      → AddrIsGone reset.1.0.registry (forget env device addr reset).1.0.registry addr
  unfolding forget
  forget-AddrIsGone v =
      removed_from-AddrIsGone reset.1.0 (unmark_included reset.1.0.bootstrap device) addr v

  forget-success : index (forget env device addr reset).0 (bytes "success") ≡ bool true
  unfolding forget Merge.find bytes_key ℕ_discrete
  forget-success = refl

module _ (env : Env) (device : Bytes) (s : IpcState)
    (found : Option (SocketAddr × DeviceId × Dict ℕ Bytes))
    (is : addr_and_id_by_endpoint s.registry device ≡ ok found)
    (valid : IsValid (reset_device env (addr_of found) s).1.0.registry) where
  -- The exclusion of a device, connected or not, succeeds, whatever it answers to the factory reset
  -- and also when it does not answer. Of the devices that are included when the wait is over, it is
  -- taken off and the others stay. The list and the registry that are persisted are those after the
  -- exclusion, and the device is not in the list. When the registry is valid at the end of the wait,
  -- the device that then stands at the address of a connected device is gone from it: its address,
  -- its identifier and its endpoint are unknown.
  pub handle_exclusion_lem :
      (x : Bytes)
      → let waited = (reset_device env (addr_of found) s).1.0 in
        let h = forget env device (addr_of found) (reset_device env (addr_of found) s) in
        (handle_exclusion env device s ≡ ok h)
        × (index h.0 (bytes "success") ≡ bool true)
        × (is_included h.1.0.bootstrap x
            ≡ ite (bytes_key.dec x device) false (is_included waited.bootstrap x))
        × IsPersisted env device (reset_device env (addr_of found) s).1.1 h.1
        × AddrIsGone waited.registry h.1.0.registry (addr_of found)
  unfolding handle_exclusion
  handle_exclusion_lem x =
      let reset = reset_device env (addr_of found) s in
      let b = forget-bootstrap env device (addr_of found) reset in
      (
        ap (λ m. m >>= λ f. ok (forget env device (addr_of f) (reset_device env (addr_of f) s))) is,
        forget-success env device (addr_of found) reset,
        ap (λ c. is_included c x) b ∙ unmarked reset.1.0.bootstrap device x,
        forget-IsPersisted env device (addr_of found) reset,
        forget-AddrIsGone env device (addr_of found) reset valid,
      )
