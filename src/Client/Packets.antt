-- ===== src/Client/Packets.antt =====
-- src/lwm2m/client.rs: what the options of a packet say.
use smart_garden_gateway_lwm.Prelude.{
  ℕ, ◌^◌, ◌<◌, ◌≡◌, refl, sym, ap, ◌∙◌, none, some, List, [], ◌∷◌, ◌++◌, map, Bytes, ◌==◌, keep_if,
  if◌then◌else◌, arith, Bool-cases, inl, inr, All,
}
use smart_garden_gateway_lwm.Text.{split, decimal, parse_uint}
use smart_garden_gateway_lwm.Text.Decimal.{IsDigit, decimal-IsDigit, parse_uint-decimal}
use smart_garden_gateway_lwm.Text.Split.{IsFreeOf, split_free, split-append}
use smart_garden_gateway_lwm.Model.{Token, ResourcePath, LwM2mCommand, read, write, execute}
use smart_garden_gateway_lwm.Coap.{
  Packet, put, get_method, post, add_option, get_option, uri_path, content_format, block1,
  encode_content_format,
}
use smart_garden_gateway_lwm.Client.{
  as_uri_path, add_segments, add_uri_path, new_packet, build_request, build_block_put,
}

values_append :
    (n m : ℕ) (v : Bytes) (os : List (ℕ × Bytes))
    → map (λ o. o.1) (keep_if (λ o. o.0 == n) (os ++ ((m, v) ∷ [])))
      ≡ map (λ o. o.1) (keep_if (λ o. o.0 == n) os) ++ (if m == n then v ∷ [] else [])
values_append n m v [] = elim (Bool-cases (m == n)) [ inl e ↦ rw e refl | inr e ↦ rw e refl ]
values_append n m v ((k, w) ∷ os) = elim (Bool-cases (k == n)) [
  | inl e ↦ rw e (ap (◌∷◌ w) (values_append n m v os))
  | inr e ↦ rw e (values_append n m v os)
]

get_option_add :
    (n m : ℕ) (v : Bytes) (p : Packet)
    → get_option n (add_option m v p) ≡ get_option n p ++ (if m == n then v ∷ [] else [])
get_option_add n m v p = values_append n m v p.options

nil-append : (xs : List Bytes) → xs ++ [] ≡ xs
nil-append [] = refl
nil-append (x ∷ xs) = ap (◌∷◌ x) (nil-append xs)

append_assoc : (xs ys zs : List Bytes) → (xs ++ ys) ++ zs ≡ xs ++ (ys ++ zs)
append_assoc [] ys zs = refl
append_assoc (x ∷ xs) ys zs = ap (◌∷◌ x) (append_assoc xs ys zs)

get_option_segments :
    (segments : List Bytes) (p : Packet)
    → get_option uri_path (add_segments segments p) ≡ get_option uri_path p ++ segments
get_option_segments [] p = sym (nil-append (get_option uri_path p))
get_option_segments (s ∷ segments) p =
    get_option_segments segments (add_option uri_path s p)
    ∙ ap (λ t. t ++ segments) (get_option_add uri_path uri_path s p)
    ∙ append_assoc (get_option uri_path p) (s ∷ []) segments

get_block1_segments :
    (segments : List Bytes) (p : Packet)
    → get_option block1 (add_segments segments p) ≡ get_option block1 p
get_block1_segments [] p = refl
get_block1_segments (s ∷ segments) p =
    get_block1_segments segments (add_option uri_path s p)
    ∙ get_option_add block1 uri_path s p
    ∙ nil-append (get_option block1 p)

-- A block's packet has one Block1 option, the one it was built with.
pub get_block1_put :
    (path : Bytes) (token : Token) (mid : ℕ) (chunk : Bytes) (format : ℕ) (block : Bytes)
    → get_option block1 (build_block_put path token mid chunk format block) ≡ block ∷ []
unfolding build_block_put add_uri_path
get_block1_put path token mid chunk format block =
    let named = add_uri_path (new_packet put token mid) path in
    let typed = add_option content_format (encode_content_format format) named in
    get_option_add block1 block1 block typed
    ∙ ap (λ t. t ++ (block ∷ []))
        (get_option_add block1 content_format (encode_content_format format) named
          ∙ nil-append (get_option block1 named)
          ∙ get_block1_segments (split b'/' path) (new_packet put token mid))

IsDigit-free : (text : Bytes) → All IsDigit text → IsFreeOf b'/' text
IsDigit-free [] digits = tt
IsDigit-free (b ∷ text) ((low, high), digits) = (omega arith, IsDigit-free text digits)

pub decimal_free : (n : ℕ) → IsFreeOf b'/' (decimal n)
decimal_free n = IsDigit-free (decimal n) (decimal-IsDigit n)

split-as_uri_path :
    (p : ResourcePath)
    → split b'/' (as_uri_path p)
      ≡ decimal p.object_id ∷ decimal p.instance_id ∷ decimal p.resource_id ∷ []
unfolding as_uri_path
split-as_uri_path p =
    split-append b'/' (decimal p.object_id)
      (decimal p.instance_id ++ (b'/' ∷ decimal p.resource_id)) (decimal_free p.object_id)
    ∙ ap (◌∷◌ (decimal p.object_id)) (
        split-append b'/' (decimal p.instance_id) (decimal p.resource_id)
          (decimal_free p.instance_id)
        ∙ ap (◌∷◌ (decimal p.instance_id))
            (split_free b'/' (decimal p.resource_id) (decimal_free p.resource_id)))

abbrev pub path_of : LwM2mCommand → ResourcePath
path_of (read path) = path
path_of (write path value format) = path
path_of (execute path args) = path

get_uri_path-add_uri_path :
    (p : Packet) (path : ResourcePath)
    → get_option uri_path (add_uri_path p (as_uri_path path))
      ≡ get_option uri_path p
        ++ (decimal path.object_id ∷ decimal path.instance_id ∷ decimal path.resource_id ∷ [])
unfolding add_uri_path
get_uri_path-add_uri_path p path =
    get_option_segments (split b'/' (as_uri_path path)) p
    ∙ ap (λ t. get_option uri_path p ++ t) (split-as_uri_path path)

parsed :
    (o i r : ℕ)
    → o < 2 ^ 16
    → i < 2 ^ 16
    → r < 2 ^ 16
    → map (parse_uint (2 ^ 16)) (decimal o ∷ decimal i ∷ decimal r ∷ [])
      ≡ some o ∷ some i ∷ some r ∷ []
parsed o i r h k l =
    rw
      (
        parse_uint-decimal (2 ^ 16) o h,
        parse_uint-decimal (2 ^ 16) i k,
        parse_uint-decimal (2 ^ 16) r l,
      )
      refl

options_of_request :
    (c : LwM2mCommand) (token : Token) (mid : ℕ)
    → get_option uri_path (build_request c token mid)
      ≡ decimal (path_of c).object_id
        ∷ decimal (path_of c).instance_id
        ∷ decimal (path_of c).resource_id
        ∷ []
unfolding build_request
options_of_request (read path) token mid =
    get_uri_path-add_uri_path (new_packet get_method token mid) path
options_of_request (write path value format) token mid =
    get_option_add uri_path content_format (encode_content_format format)
      (add_uri_path (new_packet put token mid) (as_uri_path path))
    ∙ nil-append (get_option uri_path (add_uri_path (new_packet put token mid) (as_uri_path path)))
    ∙ get_uri_path-add_uri_path (new_packet put token mid) path
options_of_request (execute path none) token mid =
    get_uri_path-add_uri_path (new_packet post token mid) path
options_of_request (execute path (some args)) token mid =
    get_uri_path-add_uri_path (new_packet post token mid) path

-- The request of a command names its resource by three Uri-Path options, which are read back as the
-- identifiers of the object, the instance and the resource, each a number of 16 bits.
pub get_uri_path-build_request :
    (c : LwM2mCommand) (token : Token) (mid : ℕ)
    → (path_of c).object_id < 2 ^ 16
    → (path_of c).instance_id < 2 ^ 16
    → (path_of c).resource_id < 2 ^ 16
    → map (parse_uint (2 ^ 16)) (get_option uri_path (build_request c token mid))
      ≡ some (path_of c).object_id
        ∷ some (path_of c).instance_id
        ∷ some (path_of c).resource_id
        ∷ []
get_uri_path-build_request c token mid h k l =
    ap (map (parse_uint (2 ^ 16))) (options_of_request c token mid)
    ∙ parsed (path_of c).object_id (path_of c).instance_id (path_of c).resource_id h k l
