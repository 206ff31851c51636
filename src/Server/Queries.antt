-- ===== src/Server/Queries.antt =====
-- src/lwm2m/server.rs: queries and resource paths are read back.
use smart_garden_gateway_lwm.Prelude.{
  ℕ, suc, ◌^◌, ◌<◌, ◌≡◌, ◌≢◌, refl, ap, ◌∙◌, false, Option, none, some, List, [], ◌∷◌, ◌++◌, Bytes,
  bytes_key, arith, All, ite, map,
}
use smart_garden_gateway_lwm.Dict.{Dict, empty, get, insert}
use smart_garden_gateway_lwm.Dict.Laws.{get-insert, get-empty}
use smart_garden_gateway_lwm.Text.{split, splitn, decimal, parse_uint, trim_start_matches}
use smart_garden_gateway_lwm.Text.Decimal.{parse_uint-decimal, decimal-ne-nil}
use smart_garden_gateway_lwm.Text.Split.{IsFreeOf, split_free, split-append}
use smart_garden_gateway_lwm.Model.{ResourcePath}
use smart_garden_gateway_lwm.Client.{as_uri_path}
use smart_garden_gateway_lwm.Client.Packets.{decimal_free}
use smart_garden_gateway_lwm.Server.{parse_query, collect_pairs, parse_lwm2m_path, path_numbers}

splitn_free : (n c : ℕ) (text : Bytes) → IsFreeOf c text → splitn (suc (suc n)) c text ≡ text ∷ []
unfolding splitn
splitn_free n c [] free = refl
splitn_free n c (b ∷ text) (other, free) = ground (arith, splitn_free n c text free)

splitn-append :
    (n c : ℕ) (piece rest : Bytes)
    → IsFreeOf c piece
    → splitn (suc (suc n)) c (piece ++ c ∷ rest) ≡ piece ∷ splitn (suc n) c rest
unfolding splitn
splitn-append n c [] rest free = ground arith
splitn-append n c (b ∷ piece) rest (other, free) = ground (arith, splitn-append n c piece rest free)

trimmed_free :
    (c : ℕ) (text : Bytes)
    → IsFreeOf c text
    → text ≢ []
    → (rest : Bytes) → trim_start_matches c (c ∷ (text ++ rest)) ≡ text ++ rest
unfolding trim_start_matches
trimmed_free c [] free some_text rest = absurd (some_text refl)
trimmed_free c (b ∷ text) (other, free) some_text rest = ground arith

splitn-as_uri_path :
    (p : ResourcePath)
    → splitn 5 b'/' (as_uri_path p)
      ≡ decimal p.object_id ∷ decimal p.instance_id ∷ decimal p.resource_id ∷ []
unfolding as_uri_path
splitn-as_uri_path p =
    splitn-append 3 b'/' (decimal p.object_id)
      (decimal p.instance_id ++ (b'/' ∷ decimal p.resource_id)) (decimal_free p.object_id)
    ∙ ap (◌∷◌ (decimal p.object_id)) (
        splitn-append 2 b'/' (decimal p.instance_id) (decimal p.resource_id)
          (decimal_free p.instance_id)
        ∙ ap (◌∷◌ (decimal p.instance_id))
            (splitn_free 1 b'/' (decimal p.resource_id) (decimal_free p.resource_id)))

numbers_of_path :
    {a b c : ℕ} (o i r : Bytes)
    → parse_uint (2 ^ 32) o ≡ some a
    → parse_uint (2 ^ 32) i ≡ some b
    → parse_uint (2 ^ 32) r ≡ some c
    → path_numbers (o ∷ i ∷ r ∷ []) ≡ some (a, b, c, false)
unfolding path_numbers
numbers_of_path o i r h k l = rw (h, k, l, path_numbers) refl

-- A resource path that is written with a slash in front and parsed comes back, with no instance of
-- the resource, when its numbers have 32 bits.
pub parse_lwm2m_path-as_uri_path :
    (p : ResourcePath)
    → p.object_id < 2 ^ 32
    → p.instance_id < 2 ^ 32
    → p.resource_id < 2 ^ 32
    → parse_lwm2m_path (b'/' ∷ as_uri_path p)
      ≡ some (p.object_id, p.instance_id, p.resource_id, false)
unfolding parse_lwm2m_path as_uri_path
parse_lwm2m_path-as_uri_path p h k l =
    ap (λ text. path_numbers (splitn 5 b'/' text))
      (trimmed_free b'/' (decimal p.object_id) (decimal_free p.object_id)
        (decimal-ne-nil p.object_id)
        (b'/' ∷ (decimal p.instance_id ++ (b'/' ∷ decimal p.resource_id))))
    ∙ ap path_numbers (splitn-as_uri_path p)
    ∙ numbers_of_path (decimal p.object_id) (decimal p.instance_id) (decimal p.resource_id)
        (parse_uint-decimal (2 ^ 32) p.object_id h) (parse_uint-decimal (2 ^ 32) p.instance_id k)
        (parse_uint-decimal (2 ^ 32) p.resource_id l)

-- A query as a device writes it.
abbrev pub join_pairs : Bytes × Bytes → List (Bytes × Bytes) → Bytes
join_pairs (k, v) [] = k ++ (b'=' ∷ v)
join_pairs (k, v) (kv ∷ kvs) = (k ++ (b'=' ∷ v)) ++ (b'&' ∷ join_pairs kv kvs)

abbrev pair_text : Bytes × Bytes → Bytes
pair_text (k, v) = k ++ (b'=' ∷ v)

-- A key without a separator, and a value without an ampersand.
abbrev pub IsPlain : Bytes × Bytes → Type 0
IsPlain (k, v) = IsFreeOf b'=' k × IsFreeOf b'&' k × IsFreeOf b'&' v

-- The last value under the key, or what was there before.
abbrev pub last_value : Bytes → List (Bytes × Bytes) → Option Bytes → Option Bytes
last_value key [] found = found
last_value key ((k, v) ∷ kvs) found = last_value key kvs (ite (bytes_key.dec key k) (some v) found)

free_append : (c : ℕ) (xs ys : Bytes) → IsFreeOf c xs → IsFreeOf c ys → IsFreeOf c (xs ++ ys)
free_append c [] ys a b = b
free_append c (x ∷ xs) ys (h, a) b = (h, free_append c xs ys a b)

pair_text_free : (kv : Bytes × Bytes) → IsPlain kv → IsFreeOf b'&' (pair_text kv)
pair_text_free (k, v) (a, b, c) = free_append b'&' k (b'=' ∷ v) b ((omega arith), c)

split_pairs :
    (kv : Bytes × Bytes) (kvs : List (Bytes × Bytes))
    → IsPlain kv
    → All IsPlain kvs
    → split b'&' (join_pairs kv kvs) ≡ map pair_text (kv ∷ kvs)
split_pairs (k, v) [] plain all = split_free b'&' (k ++ (b'=' ∷ v)) (pair_text_free (k, v) plain)
split_pairs (k, v) (kv ∷ kvs) plain (h, all) =
    split-append b'&' (k ++ (b'=' ∷ v)) (join_pairs kv kvs) (pair_text_free (k, v) plain)
    ∙ ap (◌∷◌ (k ++ (b'=' ∷ v))) (split_pairs kv kvs h all)

collect_one :
    (kv k v : Bytes) (kvs : List Bytes) (m : Dict Bytes Bytes)
    → splitn 2 b'=' kv ≡ k ∷ v ∷ []
    → collect_pairs (kv ∷ kvs) m ≡ collect_pairs kvs (insert m k v)
unfolding collect_pairs
collect_one kv k v kvs m h = rw (h, collect_pairs) refl

split_pair : (k v : Bytes) → IsFreeOf b'=' k → splitn 2 b'=' (k ++ (b'=' ∷ v)) ≡ k ∷ v ∷ []
unfolding splitn
split_pair k v a = splitn-append 0 b'=' k v a

get-collect_pairs :
    (key : Bytes) (kvs : List (Bytes × Bytes)) (m : Dict Bytes Bytes)
    → All IsPlain kvs
    → get (collect_pairs (map pair_text kvs) m) key ≡ last_value key kvs (get m key)
unfolding collect_pairs splitn
get-collect_pairs key [] m all = refl
get-collect_pairs key ((k, v) ∷ kvs) m ((a, b, c), all) =
    ap (λ n. get n key) (collect_one (k ++ (b'=' ∷ v)) k v (map pair_text kvs) m (split_pair k v a))
    ∙ get-collect_pairs key kvs (insert m k v) all
    ∙ ap (last_value key kvs) (get-insert m k key v)

-- A query of one or more pairs, with keys and values that have none of its separators in them, maps
-- each key to the last value that it is given, and other keys to nothing.
pub get-parse_query :
    (key : Bytes) (kv : Bytes × Bytes) (kvs : List (Bytes × Bytes))
    → IsPlain kv
    → All IsPlain kvs
    → get (parse_query (join_pairs kv kvs)) key ≡ last_value key (kv ∷ kvs) none
unfolding parse_query
get-parse_query key kv kvs plain all =
    ap (λ texts. get (collect_pairs texts empty) key) (split_pairs kv kvs plain all)
    ∙ get-collect_pairs key (kv ∷ kvs) empty (plain, all)
    ∙ ap (last_value key (kv ∷ kvs)) (get-empty key)
