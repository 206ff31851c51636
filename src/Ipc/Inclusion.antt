-- ===== src/Ipc/Inclusion.antt =====
-- src/ipc/command.rs: the approval of an inclusion, by a path with the device's identifier.
use smart_garden_gateway_lwm.Prelude.{
  ite, bytes_key, nat_key, ℕ, ◌-◌, ◌^◌, ◌<◌, ◌≡◌, refl, sym, ap, ap₂, ◌∙◌, true, false, ◌&&◌, some,
  [], ◌∷◌, ◌++◌, Bytes, bytes, leb, length, take, drop, ok, panic, ◌>>=◌, arith, length-append,
  drop-append, list_dec, ℕ_discrete,
}
use smart_garden_gateway_lwm.Text.{decimal, parse_uint}
use smart_garden_gateway_lwm.Text.Decimal.{parse_uint-decimal}
use smart_garden_gateway_lwm.Json.{Json, text}
use smart_garden_gateway_lwm.Bootstrap.Inclusion.{approve_inclusion, is_approved}
use smart_garden_gateway_lwm.Dict.{get}
use smart_garden_gateway_lwm.Dict.Laws.{get-insert}
use smart_garden_gateway_lwm.Bootstrap.Der.{slice}
use smart_garden_gateway_lwm.Bootstrap.Der.Encoding.{append_assoc, take-append}
use smart_garden_gateway_lwm.Ipc.{IpcState, Env, success_only}
use smart_garden_gateway_lwm.Ipc.Values.{same_text, index, str_or_empty, starts_with, ends_with}
use smart_garden_gateway_lwm.Ipc.Socket.{
  include_prefix, include_suffix, include_id, handle_include, is_include, route_request,
  handle_request,
}

same_text-same : (a : Bytes) → same_text a a ≡ true
unfolding same_text
same_text-same a =
    elim (list_dec ℕ_discrete a a) as (λ d. elim d [ yes p ↦ true | no n ↦ false ] ≡ true) [
      | yes p ↦ refl
      | no n ↦ absurd (n refl)
    ]

starts_with-append : (p t : Bytes) → starts_with (p ++ t) p ≡ true
unfolding starts_with
starts_with-append [] [] = refl
starts_with-append [] (b ∷ t) = refl
starts_with-append (b ∷ p) t = ground (arith, starts_with-append p t)

ends_with-append : (t suffix : Bytes) → ends_with (t ++ suffix) suffix ≡ true
unfolding ends_with
ends_with-append t suffix =
    let size = length-append t suffix in
    let fits : leb (length suffix) (length (t ++ suffix)) ≡ true = ground (arith, size) in
    let cut : drop (length (t ++ suffix) - length suffix) (t ++ suffix) ≡ suffix =
      drop-append t suffix 0 (length (t ++ suffix) - length suffix) (omega (arith, size)) in
    rw (ends_with, fits, cut) (same_text-same suffix)

-- The path of an identifier.
abbrev pub include_path : ℕ → Bytes
include_path id = include_prefix ++ (decimal id ++ include_suffix)

is_include-include_path :
    (middle : Bytes) → is_include (include_prefix ++ (middle ++ include_suffix)) ≡ true
unfolding is_include
is_include-include_path middle =
    ap₂ ◌&&◌ (starts_with-append include_prefix (middle ++ include_suffix)) (
      ap (λ t. ends_with t include_suffix) (sym (append_assoc include_prefix middle include_suffix))
      ∙ ends_with-append (include_prefix ++ middle) include_suffix)

slice_middle :
    (a middle b : Bytes)
    → slice (a ++ (middle ++ b)) (length a) (length (a ++ (middle ++ b)) - length b) ≡ ok middle
unfolding slice
slice_middle a middle b =
    let outer = length-append a (middle ++ b) in
    let inner = length-append middle b in
    let n = length (a ++ (middle ++ b)) - length b in
    let low : leb (length a) n ≡ true = ground (arith, outer, inner) in
    let high : leb n (length (a ++ (middle ++ b))) ≡ true = ground arith in
    let size : n - length a ≡ length middle = omega (arith, outer, inner) in
    rw (slice, low, high)
      (ap ok (
        ap₂ take size (drop-append a (middle ++ b) 0 (length a) (omega arith))
        ∙ take-append middle b))

-- The arm of the request is found by its fields.
module _ (env : Env) (req : Json) (s : IpcState) (path : Bytes)
    (op_is : index req (bytes "op") ≡ text (bytes "execute"))
    (path_is : index (index req (bytes "entity")) (bytes "path") ≡ text path)
    (is : is_include path ≡ true) where
  to_include : handle_request env req s ≡ handle_include path s
  unfolding handle_request route_request same_text ℕ_discrete
  to_include =
      let device = str_or_empty (index (index req (bytes "entity")) (bytes "device")) in
      ap₂
        (λ o p.
          route_request env (str_or_empty o) (str_or_empty p) device (index req (bytes "payload"))
            s)
        op_is path_is
      ∙ rw is refl

-- A request to execute the path of an identifier that was shown for an endpoint succeeds, and
-- approves that endpoint: the other endpoints stay as approved as they were.
pub handle_request-include :
    (env : Env) (req : Json) (s : IpcState) (id : ℕ) (endpoint x : Bytes)
    → index req (bytes "op") ≡ text (bytes "execute")
    → index (index req (bytes "entity")) (bytes "path") ≡ text (include_path id)
    → id < 2 ^ 32
    → get s.bootstrap.includable_by_id id ≡ some endpoint
    → let b = (approve_inclusion s.bootstrap id).1 in
      (handle_request env req s ≡ ok (success_only true, (record s { bootstrap = b }, [])))
      × (is_approved b x ≡ ite (bytes_key.dec x endpoint) true (is_approved s.bootstrap x))
unfolding handle_include include_id approve_inclusion is_approved
handle_request-include env req s id endpoint x op_is path_is fits known = (
  to_include env req s (include_path id) op_is path_is (is_include-include_path (decimal id))
      ∙ ap (λ m. m >>= λ middle. ok (include_id s (parse_uint (2 ^ 32) middle)))
          (slice_middle include_prefix (decimal id) include_suffix)
      ∙ ap (λ o. ok (include_id s o)) (parse_uint-decimal (2 ^ 32) id fits)
      ∙ rw (known, include_id, approve_inclusion) refl,
  rw (known, approve_inclusion) (ground (arith, get-insert s.bootstrap.approved endpoint x tt)),
)

-- The path without an identifier and without the slash in front of it stops the task of the client
-- by a panic, since the slash serves as the end of the prefix and as the start of the suffix.
pub handle_request-panic :
    (env : Env) (req : Json) (s : IpcState)
    → index req (bytes "op") ≡ text (bytes "execute")
    → index (index req (bytes "entity")) (bytes "path") ≡ text (bytes "includable_device/include")
    → handle_request env req s ≡ panic
unfolding handle_include slice is_include starts_with ends_with same_text ℕ_discrete
handle_request-panic env req s op_is path_is =
    to_include env req s (bytes "includable_device/include") op_is path_is refl ∙ refl
