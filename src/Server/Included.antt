-- ===== src/Server/Included.antt =====
-- src/lwm2m/server.rs: a device becomes included only after it acknowledged the whole write phase.
use smart_garden_gateway_lwm.Prelude.{
  ℕ, ◌≡◌, refl, sym, ◌∙◌, Bool, true, false, Option, none, some, List, [], ◌∷◌, Bytes, bytes,
  bytes_key, map, Option-cases, inl, inr,
}
use smart_garden_gateway_lwm.Dict.{get}
use smart_garden_gateway_lwm.Model.{Token}
use smart_garden_gateway_lwm.Coap.{
  request, delete, put, post, uri_path, content_format, encode_content_format,
}
use smart_garden_gateway_lwm.Bootstrap.{BootstrapInner, get_cert}
use smart_garden_gateway_lwm.Bootstrap.Objects.{encode_server_object, encode_security_object}
use smart_garden_gateway_lwm.Bootstrap.Inclusion.{is_included, remove_includable_id}
use smart_garden_gateway_lwm.Server.WritePhase.{
  Radio, build_delete, build_put, build_post_bs, Phase, write_step, and_next, senml_cbor,
  put_server, put_security, with_key, key_of, security_step, bootstrap_write_phase,
  finish_inclusion, run_inclusion,
}
use smart_garden_gateway_lwm.Server.Acknowledged.{
  acks, Target, target, write_step-Acknowledges, WithKey, and_next-WithKey, WithKey-and_next,
}

module _ (radio : Radio) (endpoint server_uri server_pubkey : Bytes) where
  abbrev segment : Bytes → ℕ × Bytes
  segment s = (uri_path, s)

  abbrev senml : ℕ × Bytes
  senml = (content_format, encode_content_format senml_cbor)

  abbrev pub security_target : Bytes → Target
  security_target key = (
    request put,
    (
      segment (bytes "0") ∷ segment (bytes "1") ∷ senml ∷ [],
      encode_security_object server_uri server_pubkey key,
    ),
  )

  -- DELETE /1, PUT /1/1, DELETE /0, PUT /0/1, POST /bs.
  abbrev pub write_targets : Bytes → List Target
  write_targets key =
      (request delete, (segment (bytes "1") ∷ [], []))
      ∷ (
        request put,
        (segment (bytes "1") ∷ segment (bytes "1") ∷ senml ∷ [], encode_server_object),
      )
      ∷ (request delete, (segment (bytes "0") ∷ [], []))
      ∷ security_target key
      ∷ (request post, (segment (bytes "bs") ∷ [], []))
      ∷ []

  put_security-target :
      (key : Bytes) (mid : ℕ) (token : Token)
      → target (put_security server_uri server_pubkey key mid token) ≡ security_target key
  unfolding put_security build_put
  put_security-target key mid token = refl

  keyed-WithKey :
      (b : BootstrapInner) (cert : Bytes) (found : Option Bytes)
      → radio.encrypted_key cert ≡ found
      → WithKey radio
          (with_key radio server_uri server_pubkey b found)
          (λ key. security_target key ∷ [])
  unfolding with_key
  keyed-WithKey b cert none is h = absurd (cc)
  keyed-WithKey b cert (some key) is h = (
    cert,
    (
      key,
      (
        is,
        write_step-Acknowledges radio (put_security server_uri server_pubkey key)
            (security_target key) b (put_security-target key) h,
      ),
    ),
  )

  with_key-WithKey :
      (b : BootstrapInner) (found : Option Bytes)
      → WithKey radio
          (with_key radio server_uri server_pubkey b (key_of radio found))
          (λ key. security_target key ∷ [])
  unfolding with_key
  with_key-WithKey b none h = absurd (cc)
  with_key-WithKey b (some cert) h = keyed-WithKey b cert (radio.encrypted_key cert) refl h

  -- The last two steps, and all five.
  security_step-WithKey :
      (b : BootstrapInner)
      → WithKey radio
          (and_next
            (security_step radio endpoint server_uri server_pubkey b)
            (λ b. write_step radio build_post_bs b))
          (λ key. security_target key ∷ (request post, (segment (bytes "bs") ∷ [], [])) ∷ [])
  unfolding security_step build_post_bs
  security_step-WithKey b =
      WithKey-and_next radio
        (with_key radio server_uri server_pubkey b (key_of radio (get_cert b endpoint)))
        (λ b. write_step radio build_post_bs b) (λ key. security_target key ∷ [])
        ((request post, (segment (bytes "bs") ∷ [], [])) ∷ [])
        (with_key-WithKey b (get_cert b endpoint))
        (λ b.
          write_step-Acknowledges radio build_post_bs
            (request post, (segment (bytes "bs") ∷ [], [])) b (λ mid token. refl))

  -- The steps in front of it, whatever follows them.
  abbrev delete_target : Bytes → Target
  delete_target path = (request delete, (segment path ∷ [], []))

  abbrev put_server_target : Target
  unfolding encode_server_object
  put_server_target =
      (request put, (segment (bytes "1") ∷ segment (bytes "1") ∷ senml ∷ [], encode_server_object))

  delete-WithKey :
      (path : Bytes) (b : BootstrapInner) (next : BootstrapInner → Phase) (us : Bytes → List Target)
      → ((b : BootstrapInner) → WithKey radio (next b) us)
      → WithKey radio
          (and_next (write_step radio (λ mid token. build_delete mid token (path ∷ [])) b) next)
          (λ key. delete_target path ∷ us key)
  unfolding build_delete
  delete-WithKey path b next us later =
      and_next-WithKey radio (write_step radio (λ mid token. build_delete mid token (path ∷ [])) b)
        next (delete_target path ∷ []) us
        (write_step-Acknowledges radio (λ mid token. build_delete mid token (path ∷ []))
          (delete_target path) b (λ mid token. refl))
        later

  put_server-WithKey :
      (b : BootstrapInner) (next : BootstrapInner → Phase) (us : Bytes → List Target)
      → ((b : BootstrapInner) → WithKey radio (next b) us)
      → WithKey radio
          (and_next (write_step radio put_server b) next)
          (λ key. put_server_target ∷ us key)
  unfolding put_server build_put
  put_server-WithKey b next us later =
      and_next-WithKey radio (write_step radio put_server b) next (put_server_target ∷ []) us
        (write_step-Acknowledges radio put_server put_server_target b (λ mid token. refl)) later

  bootstrap_write_phase-WithKey :
      (b : BootstrapInner)
      → WithKey radio
          (bootstrap_write_phase radio endpoint server_uri server_pubkey b)
          write_targets
  unfolding bootstrap_write_phase
  bootstrap_write_phase-WithKey b = delete-WithKey (bytes "1") b _ _ (λ b.
      put_server-WithKey b _ _
        (λ b. delete-WithKey (bytes "0") b _ _ (λ b. security_step-WithKey b)))

finish_inclusion-failed :
    (id : ℕ) (endpoint : Bytes) (b : BootstrapInner)
    → is_included (finish_inclusion id endpoint (false, b)).1 endpoint ≡ is_included b endpoint
unfolding finish_inclusion is_included remove_includable_id
finish_inclusion-failed id endpoint b = elim (Option-cases (get b.includable_ids endpoint)) [
  | inl absent ↦ rw (absent, finish_inclusion, remove_includable_id) refl
  | inr (n, known) ↦ rw (known, finish_inclusion, remove_includable_id) refl
]

finish_inclusion-ok :
    (id : ℕ) (endpoint : Bytes) (ended : Bool × BootstrapInner)
    → is_included ended.1 endpoint ≡ false
    → is_included (finish_inclusion id endpoint ended).1 endpoint ≡ true
    → ended.0 ≡ true
finish_inclusion-ok id endpoint (true, b) before after = refl
finish_inclusion-ok id endpoint (false, b) before after =
    let bad : true ≡ false = sym after ∙ finish_inclusion-failed id endpoint b ∙ before in
    absurd (cc)

-- A device that is not included while its inclusion runs, and is when the inclusion ends, has
-- acknowledged, in this order and nothing else, DELETE /1, PUT /1/1 with the server object,
-- DELETE /0, PUT /0/1 with the security object and POST /bs. The key in the security object is the
-- network key encrypted for the public key of a certificate.
pub run_inclusion-WithKey :
    (radio : Radio) (id : ℕ) (endpoint server_uri server_pubkey : Bytes) (b : BootstrapInner)
    → let phase = bootstrap_write_phase radio endpoint server_uri server_pubkey b in
      let run = run_inclusion radio id endpoint server_uri server_pubkey b in
      is_included phase.1.1 endpoint ≡ false
      → is_included run.1 endpoint ≡ true
      → (cert : Bytes) × ((key : Bytes) × ((radio.encrypted_key cert ≡ some key)
            × (map target (acks run.0.0)
                ≡ write_targets radio endpoint server_uri server_pubkey key)))
unfolding run_inclusion
run_inclusion-WithKey radio id endpoint server_uri server_pubkey b before after =
    let phase = bootstrap_write_phase radio endpoint server_uri server_pubkey b in
    bootstrap_write_phase-WithKey radio endpoint server_uri server_pubkey b
      (finish_inclusion-ok id endpoint phase.1 before after)
