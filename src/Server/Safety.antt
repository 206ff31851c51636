-- ===== src/Server/Safety.antt =====
-- src/lwm2m/server.rs: no packet stops the server or harms the registry.
use smart_garden_gateway_lwm.Prelude.{
  List, [], ◌∷◌, Option, none, some, none, some, nat_key, bytes_key, Outcome, Returns,
}
use smart_garden_gateway_lwm.Model.{addr_key}
use smart_garden_gateway_lwm.Coap.{Packet}
use smart_garden_gateway_lwm.Registry.{RegistryInner}
use smart_garden_gateway_lwm.Server.{parse_link_format}
use smart_garden_gateway_lwm.Server.Packets.{ServerEnv, Handled, Received}
use smart_garden_gateway_lwm.Server.Kept.{KeptFrom, link_text}

-- The handler comes back, with a valid registry that assigned at most one identifier since `r`.
abbrev pub IsKept : RegistryInner → Outcome Handled → Type 0
IsKept r run = Returns run (λ handled. KeptFrom r handled.1.server.registry)

-- The reading of links does not panic on any of the payloads.
abbrev pub IsReadable : ServerEnv → Option Packet → Type 0
IsReadable env none = Unit
IsReadable env (some p) = Returns (parse_link_format (link_text env p)) (λ _. Unit)

abbrev pub AllReadable : List Received → Type 0
AllReadable [] = Unit
AllReadable (x ∷ xs) = IsReadable x.env x.packet × AllReadable xs
