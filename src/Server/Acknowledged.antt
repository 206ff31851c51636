-- ===== src/Server/Acknowledged.antt =====
-- src/lwm2m/server.rs: which packets of the write phase a device acknowledged, when the phase went well.
use smart_garden_gateway_lwm.Prelude.{
  ℕ, zero, suc, ◌+◌, ◌*◌, min, ◌≡◌, refl, ap, ap₂, ◌∙◌, Bool, true, false, some, List, [], ◌∷◌,
  ◌++◌, Bytes, bytes_key, map,
}
use smart_garden_gateway_lwm.Model.{Token}
use smart_garden_gateway_lwm.Coap.{Packet, MessageClass}
use smart_garden_gateway_lwm.Bootstrap.{BootstrapInner, alloc_inner}
use smart_garden_gateway_lwm.Server.WritePhase.{
  Reaction, accepts, refuses, keeps_silent, Radio, WriteAction, transmit, acknowledged, StepEnd,
  on_reaction, unless_sent, send_attempts, send_con_write_step, Phase, is_ok, send_encoded,
  write_step, and_next,
}

-- The packets that the device acknowledged, in order.
unfoldable pub acks : List WriteAction → List Packet
acks [] = []
acks (transmit pkt delay ∷ actions) = acks actions
acks (acknowledged pkt ∷ actions) = pkt ∷ acks actions

acks-append : (a b : List WriteAction) → acks (a ++ b) ≡ acks a ++ acks b
unfolding acks
acks-append [] b = refl
acks-append (transmit pkt delay ∷ a) b = acks-append a b
acks-append (acknowledged pkt ∷ a) b = ap (◌∷◌ pkt) (acks-append a b)

-- What a packet asks for, its token and identifier apart.
abbrev pub Target : Type 0
Target = MessageClass × (List (ℕ × Bytes) × Bytes)

abbrev pub target : Packet → Target
target p = (p.code, (p.options, p.payload))

on_reaction-acks :
    (pkt : Packet) (delay : ℕ) (later : List WriteAction × StepEnd) (r : Reaction)
    → (is_ok later.1 ≡ true → acks later.0 ≡ pkt ∷ [])
    → is_ok (on_reaction pkt delay later r).1 ≡ true
    → acks (on_reaction pkt delay later r).0 ≡ pkt ∷ []
unfolding acks
on_reaction-acks pkt delay later accepts ih h = refl
on_reaction-acks pkt delay later refuses ih h = absurd (cc)
on_reaction-acks pkt delay later keeps_silent ih h = ih h

unless_sent-acks :
    (pkt : Packet) (sent : Bool) (result : List WriteAction × StepEnd)
    → (is_ok result.1 ≡ true → acks result.0 ≡ pkt ∷ [])
    → is_ok (unless_sent sent result).1 ≡ true
    → acks (unless_sent sent result).0 ≡ pkt ∷ []
unless_sent-acks pkt true result ih h = ih h
unless_sent-acks pkt false result ih h = absurd (cc)

-- A step that goes well ends with the acknowledgement of its packet.
send_attempts-acks :
    (radio : Radio) (pkt : Packet) (left attempt delay : ℕ)
    → is_ok (send_attempts radio pkt left attempt delay).1 ≡ true
    → acks (send_attempts radio pkt left attempt delay).0 ≡ pkt ∷ []
unfolding send_attempts
send_attempts-acks radio pkt zero attempt delay h = absurd (cc)
send_attempts-acks radio pkt (suc left) attempt delay h =
    let later = send_attempts radio pkt left (attempt + 1) (min (delay * 2) 32) in
    unless_sent-acks pkt (radio.sends pkt attempt)
      (on_reaction pkt delay later (radio.reacts pkt attempt))
      (on_reaction-acks pkt delay later (radio.reacts pkt attempt)
        (send_attempts-acks radio pkt left (attempt + 1) (min (delay * 2) 32)))
      h

-- A phase that went well was acknowledged with these targets, in this order.
abbrev pub Acknowledges : Phase → List Target → Type 0
Acknowledges (actions, ended) targets = ended.0 ≡ true → map target (acks actions) ≡ targets

send_encoded-Acknowledges :
    (radio : Radio) (pkt : Packet) (token : Token) (b : BootstrapInner) (encoded : Bool)
    → Acknowledges (send_encoded radio pkt token b encoded) (target pkt ∷ [])
unfolding send_encoded send_con_write_step
send_encoded-Acknowledges radio pkt token b false h = absurd (cc)
send_encoded-Acknowledges radio pkt token b true h =
    ap (map target) (send_attempts-acks radio pkt 5 0 2 h)

pub write_step-Acknowledges :
    (radio : Radio) (make : ℕ → Token → Packet) (t : Target) (b : BootstrapInner)
    → ((mid : ℕ) (token : Token) → target (make mid token) ≡ t)
    → Acknowledges (write_step radio make b) (t ∷ [])
unfolding write_step alloc_inner
write_step-Acknowledges radio make t b same h =
    send_encoded-Acknowledges radio _ _ _ _ h ∙ ap (λ x. x ∷ []) (same _ _)

map-append : (a b : List Packet) → map target (a ++ b) ≡ map target a ++ map target b
map-append [] b = refl
map-append (p ∷ a) b = ap (◌∷◌ (target p)) (map-append a b)

pub and_next-Acknowledges :
    (phase : Phase) (next : BootstrapInner → Phase) (ts us : List Target)
    → Acknowledges phase ts
    → ((b : BootstrapInner) → Acknowledges (next b) us)
    → Acknowledges (and_next phase next) (ts ++ us)
and_next-Acknowledges (actions, (false, b)) next ts us first then_ h = absurd (cc)
and_next-Acknowledges (actions, (true, b)) next ts us first then_ h =
    ap (map target) (acks-append actions (next b).0)
    ∙ map-append (acks actions) (acks (next b).0)
    ∙ ap₂ ◌++◌ (first refl) (then_ b h)

-- The targets with a key that the device can decrypt, as far as its certificate in the cache goes.
abbrev pub WithKey : Radio → Phase → (Bytes → List Target) → Type 0
WithKey radio (actions, ended) targets =
    ended.0 ≡ true
    → (cert : Bytes) × ((key : Bytes) × ((radio.encrypted_key cert ≡ some key)
          × (map target (acks actions) ≡ targets key)))

pub and_next-WithKey :
    (radio : Radio) (phase : Phase) (next : BootstrapInner → Phase) (ts : List Target)
    (us : Bytes → List Target)
    → Acknowledges phase ts
    → ((b : BootstrapInner) → WithKey radio (next b) us)
    → WithKey radio (and_next phase next) (λ key. ts ++ us key)
and_next-WithKey radio (actions, (false, b)) next ts us first then_ h = absurd (cc)
and_next-WithKey radio (actions, (true, b)) next ts us first then_ h =
    let (cert, (key, (is, same))) = then_ b h in
    (
      cert,
      (
        key,
        (
          is,
          ap (map target) (acks-append actions (next b).0)
              ∙ map-append (acks actions) (acks (next b).0)
              ∙ ap₂ ◌++◌ (first refl) same,
        ),
      ),
    )

pub WithKey-and_next :
    (radio : Radio) (phase : Phase) (next : BootstrapInner → Phase) (ts : Bytes → List Target)
    (us : List Target)
    → WithKey radio phase ts
    → ((b : BootstrapInner) → Acknowledges (next b) us)
    → WithKey radio (and_next phase next) (λ key. ts key ++ us)
WithKey-and_next radio (actions, (false, b)) next ts us first then_ h = absurd (cc)
WithKey-and_next radio (actions, (true, b)) next ts us first then_ h =
    let (cert, (key, (is, same))) = first refl in
    (
      cert,
      (
        key,
        (
          is,
          ap (map target) (acks-append actions (next b).0)
              ∙ map-append (acks actions) (acks (next b).0)
              ∙ ap₂ ◌++◌ same (then_ b h),
        ),
      ),
    )
