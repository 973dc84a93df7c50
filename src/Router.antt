-- ===== src/Router.antt =====
-- services/gateway/route_engine.py and services/gateway/routes_model.py: which objects a route
-- takes, and the dispatch of one object with its counters and senders. The sockets are the
-- parameter `Network`, the two translators the parameter `Translators`.
pub mod Glob
pub mod Counts
pub mod Dispatch
pub mod Reach
mod Samples
use tactical_gateway.Base.{
  ℕ, ◌+◌, Bool, true, false, not, ◌&&◌, Option, none, some, List, [], ◌∷◌, ◌++◌, Text, codes,
  text_eq, if◌then◌else◌, ◌>>=ₒ◌,
}
use tactical_gateway.Base.Dict.{lookup, store}
use tactical_gateway.Frame.{encode_frame}
use tactical_gateway.Router.Glob.{fnmatchcase}

pub data DestinationKind : Type 0 where
  tcp udp : DestinationKind

pub data OutputFormat : Type 0 where
  cot_xml cot_protobuf : OutputFormat

pub record RouteMatch : Type 0 where
  pub source_system_glob : Option Text
  pub source_protocol : Option Text
  pub object_class : Option Text

pub record Destination : Type 0 where
  pub kind : DestinationKind
  pub host : Text
  pub port : ℕ
  pub format : OutputFormat

pub record Route : Type 0 where
  pub id : Text
  pub enabled : Bool
  pub match : RouteMatch
  pub destination : Destination

-- What the engine reads of a CTO: its three match fields. `body` is the rest.
pub record Cto (B : Type 0) : Type 0 where
  pub source_system : Text
  pub source_protocol : Text
  pub object_class : Text
  pub body : B

abbrev pub or_any : (Text → Bool) → Option Text → Bool
or_any test none = true
or_any test (some v) = test v

unfoldable pub cto_matches : {B : Type 0} → Cto B → RouteMatch → Bool
unfolding fnmatchcase text_eq
cto_matches cto m =
    or_any (λ glob. fnmatchcase cto.source_system glob) m.source_system_glob
    && or_any (λ v. text_eq cto.source_protocol v) m.source_protocol
    && or_any (λ v. text_eq cto.object_class v) m.object_class

-- The counters of one route; `last_send_at` is the clock of the send.
pub record RouteStats : Type 0 where
  pub matched : ℕ
  pub sent : ℕ
  pub send_errors : ℕ
  pub last_send_at : Option ℕ

abbrev pub new_stats : RouteStats
new_stats = record { matched = 0; sent = 0; send_errors = 0; last_send_at = none }

-- The sockets of the process in the world `W`; `none` and `false` are raises.
pub record Network (W : Type 0) : Type 1 where
  pub Writer : Type 0
  pub open_connection : Text → ℕ → W → Option Writer × W
  pub is_closing : Writer → W → Bool
  pub write_and_drain : Writer → Text → W → Bool × W
  pub Socket : Type 0
  pub new_socket : W → Option Socket × W
  pub sock_sendto : Socket → Text → Text → ℕ → W → Bool × W
  pub now : W → ℕ

-- `cto_to_cot_xml` and the payload of `cto_to_cot_pb`, each with the fields it loses.
pub record Translators (B : Type 0) : Type 0 where
  pub cto_to_cot_xml : Cto B → Option (Text × List Text)
  pub cto_to_cot_pb : Cto B → Option (Text × List Text)

abbrev pub scheme : DestinationKind → Text
scheme tcp = codes "tcp"
scheme udp = codes "udp"

-- The decimal digits of a port.
pub record Digits : Type 0 where
  pub str : ℕ → Text

-- `{r.id: RouteStats() for r in config.routes}`
unfoldable pub fresh_stats : List Route → List (Text × RouteStats) → List (Text × RouteStats)
unfolding store
fresh_stats [] d = d
fresh_stats (r ∷ rs) d = fresh_stats rs (store r.id new_stats d)

abbrev pub count_match : RouteStats → RouteStats
count_match s = record s { matched = s.matched + 1 }

abbrev pub count_sent : ℕ → RouteStats → RouteStats
count_sent t s = record s { sent = s.sent + 1; last_send_at = some t }

abbrev pub count_error : RouteStats → RouteStats
count_error s = record s { send_errors = s.send_errors + 1 }

unfoldable pub takes : {B : Type 0} → Cto B → Route → Bool
unfolding cto_matches
takes cto r = r.enabled && cto_matches cto r.match

-- `set_enabled`: the routes, and whether one has the id.
unfoldable pub enable_first : Text → Bool → List Route → Bool × List Route
unfolding text_eq
enable_first id on [] = (false, [])
enable_first id on (r ∷ rs) =
    let (changed, rest) = enable_first id on rs in
    if text_eq r.id id then (true, record r { enabled = on } ∷ rs) else (changed, r ∷ rest)

abbrev pub or_new {ℓ} : {A : Type ℓ} → A → Option A → A
or_new a none = a
or_new a (some b) = b

module _ {W : Type 0} (net : Network W) where
  -- A sender with what it keeps open.
  pub data Sender : Type 0 where
    tcp_sender : Text → ℕ → Option net.Writer → Sender
    udp_sender : Text → ℕ → Option net.Socket → Sender

  -- What a send does: whether it returned, the sender, the world.
  abbrev pub Sent : Type 0
  Sent = Bool × Sender × W

  unfoldable pub tcp_write : Text → ℕ → Option net.Writer × W → Text → Sent
  tcp_write host port (none, w) data_ = (false, tcp_sender host port none, w)
  tcp_write host port (some writer, w) data_ =
      let (drained, w') = net.write_and_drain writer data_ w in
      (drained, tcp_sender host port (some writer), w')

  unfoldable pub reconnect : Text → ℕ → Option net.Writer → Option net.Writer × W → Text → Sent
  reconnect host port old (none, w) data_ = (false, tcp_sender host port old, w)
  reconnect host port old (some writer, w) data_ = tcp_write host port (some writer, w) data_

  unfoldable pub udp_write : Text → ℕ → Option net.Socket × W → Text → Sent
  udp_write host port (none, w) data_ = (false, udp_sender host port none, w)
  udp_write host port (some sock, w) data_ =
      let (sent, w') = net.sock_sendto sock data_ host port w in
      (sent, udp_sender host port (some sock), w')

  unfoldable pub send : Sender → Text → W → Sent
  unfolding tcp_write reconnect udp_write
  send (tcp_sender host port none) data_ w =
      reconnect host port none (net.open_connection host port w) data_
  send (tcp_sender host port (some writer)) data_ w =
      if net.is_closing writer w
      then reconnect host port (some writer) (net.open_connection host port w) data_
      else tcp_write host port (some writer, w) data_
  send (udp_sender host port none) data_ w = udp_write host port (net.new_socket w) data_
  send (udp_sender host port (some sock)) data_ w = udp_write host port (some sock, w) data_

  pub record Engine : Type 0 where
    pub routes : List Route
    pub senders : List (Text × Sender)
    pub stats : List (Text × RouteStats)
    pub world : W

  unfoldable pub new_engine : List Route → W → Engine
  unfolding fresh_stats
  new_engine routes w = record {
    routes = routes;
    senders = [];
    stats = fresh_stats routes [];
    world = w;
  }

  unfoldable pub set_enabled : Text → Bool → Engine → Bool × Engine
  unfolding enable_first
  set_enabled id on e =
      let (changed, routes') = enable_first id on e.routes in
      (changed, record e { routes = routes' })

module _ {W B : Type 0} (net : Network W) (tr : Translators B) (digits : Digits) where
  unfoldable pub sender_key : Destination → Text
  sender_key d = scheme d.kind ++ (codes "://" ++ (d.host ++ (codes ":" ++ digits.str d.port)))

  abbrev pub new_sender : Destination → Sender net
  new_sender d = elim d.kind [
    | tcp ↦ tcp_sender d.host d.port none
    | udp ↦ udp_sender d.host d.port none
  ]

  unfoldable pub sender_for : Destination → List (Text × Sender net) → Sender net
  unfolding lookup sender_key
  sender_for d senders = or_new (new_sender d) (lookup (sender_key d) senders)

  abbrev pub frame_payload : Option (Text × List Text) → Option (Text × List Text)
  frame_payload none = none
  frame_payload (some (payload, lossy)) = some (encode_frame payload, lossy)

  unfoldable pub translate : Cto B → OutputFormat → Option (Text × List Text)
  translate cto cot_xml = tr.cto_to_cot_xml cto
  translate cto cot_protobuf = frame_payload (tr.cto_to_cot_pb cto)

  -- The end of the `try` block: a send that returned, or an exception that is counted.
  unfoldable pub after_send : Route → RouteStats → Engine net → Sent net → Engine net
  unfolding store
  after_send r s e (true, sender, w) = record e {
    senders = store (sender_key r.destination) sender e.senders;
    stats = store r.id (count_sent (net.now w) s) e.stats;
    world = w;
  }
  after_send r s e (false, sender, w) = record e {
    senders = store (sender_key r.destination) sender e.senders;
    stats = store r.id (count_error s) e.stats;
    world = w;
  }

  unfoldable pub deliver : Route → RouteStats → Engine net → Option (Text × List Text) → Engine net
  unfolding after_send send sender_for
  deliver r s e none = record e { stats = store r.id (count_error s) e.stats }
  deliver r s e (some (data_, lossy)) =
      after_send r s e (send net (sender_for r.destination e.senders) data_ e.world)

  -- A route that takes the object; `none` is the KeyError of a route without counters.
  unfoldable pub dispatch : Cto B → Route → Engine net → Option RouteStats → Option (Engine net)
  unfolding deliver translate
  dispatch cto r e none = none
  dispatch cto r e (some s) =
      some (deliver r (count_match s) e (translate cto r.destination.format))

  unfoldable pub handle_route : Cto B → Route → Engine net → Option (Engine net)
  handle_route cto r e = if takes cto r then dispatch cto r e (lookup r.id e.stats) else some e

  unfoldable pub handle_routes : Cto B → List Route → Engine net → Option (Engine net)
  handle_routes cto [] e = some e
  handle_routes cto (r ∷ rs) e = handle_route cto r e >>=ₒ handle_routes cto rs

  unfoldable pub handle_cto : Cto B → Engine net → Option (Engine net)
  unfolding handle_routes
  handle_cto cto e = handle_routes cto e.routes e
