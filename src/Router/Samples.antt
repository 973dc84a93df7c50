-- ===== src/Router/Samples.antt =====
-- Runs of the route engine of services/gateway/route_engine.py on a small network: the world counts
-- the datagrams, and the host "down" is never reached.
use tactical_gateway.Base.{
  ℕ, ◌+◌, ◌≡◌, refl, Bool, true, false, not, Option, none, some, List, [], ◌∷◌, Text, codes,
  text_eq, if◌then◌else◌,
}
use tactical_gateway.Base.Dict.{lookup}
use tactical_gateway.Router.{
  Route, RouteMatch, tcp, cot_xml, Cto, Network, Translators, Digits, Engine, new_engine,
  handle_cto, set_enabled, handle_route, takes, dispatch, deliver, RouteStats,
}
use tactical_gateway.Router.Glob.{fnmatchcase}
use tactical_gateway.Router.Dispatch.{AllGrown, hits}
use tactical_gateway.Router.Reach.{Reachable, Accounts, Reachable-Accounts, handle_cto_counts}

glob_star : fnmatchcase (codes "cot-xml-tcp:10.0.0.1") (codes "cot-xml-tcp:*") ≡ true
unfolding fnmatchcase
glob_star = refl

glob_class : fnmatchcase (codes "kmz-7") (codes "kmz[!0-9][a-c5-8]") ≡ true
unfolding fnmatchcase
glob_class = refl

glob_open_bracket : fnmatchcase (codes "a[b") (codes "?[b") ≡ true
unfolding fnmatchcase
glob_open_bracket = refl

glob_other_case : fnmatchcase (codes "TAK") (codes "tak*") ≡ false
unfolding fnmatchcase
glob_other_case = refl

abbrev small_net : Network ℕ
small_net = record {
  Writer = Bool;
  open_connection =
      λ host port w. if text_eq host (codes "down") then (none, w) else (some true, w);
  is_closing = λ writer w. not writer;
  write_and_drain = λ writer data_ w. (writer, w + 1);
  Socket = Unit {0};
  new_socket = λ w. (some tt, w);
  sock_sendto = λ s data_ host port w. (true, w + 1);
  now = λ w. w;
}

abbrev small_translators : Translators Text
small_translators = record {
  cto_to_cot_xml = λ c. some (c.body, []);
  cto_to_cot_pb = λ c. some (c.body, []);
}

abbrev small_digits : Digits
small_digits = record { str = λ n. n ∷ [] }

abbrev any_match : RouteMatch
any_match = record { source_system_glob = none; source_protocol = none; object_class = none }

abbrev tak_match : RouteMatch
tak_match = record {
  source_system_glob = some (codes "cot-*");
  source_protocol = none;
  object_class = none;
}

abbrev route_to : Text → RouteMatch → Text → Route
route_to id m host = record {
  id = id;
  enabled = true;
  match = m;
  destination = record { kind = tcp; host = host; port = 9999; format = cot_xml };
}

abbrev two_routes : List Route
two_routes =
    route_to (codes "a") tak_match (codes "up") ∷ route_to (codes "b") any_match (codes "down") ∷ []

abbrev track : Cto Text
track = record {
  source_system = codes "cot-xml-tcp";
  source_protocol = codes "cot_xml";
  object_class = codes "track";
  body = codes "x";
}

abbrev start : Engine small_net
start = new_engine small_net two_routes 5

abbrev stats_of : Text → Option (Engine small_net) → Option RouteStats
stats_of k none = none
stats_of k (some e) = lookup k e.stats

sent_to_the_first :
    stats_of (codes "a") (handle_cto small_net small_translators small_digits track start)
    ≡ some (record { matched = 1; sent = 1; send_errors = 0; last_send_at = some 6 })
unfolding handle_cto new_engine handle_route dispatch deliver takes
sent_to_the_first = refl

failed_to_the_second :
    stats_of (codes "b") (handle_cto small_net small_translators small_digits track start)
    ≡ some (record { matched = 1; sent = 0; send_errors = 1; last_send_at = none })
unfolding handle_cto new_engine handle_route dispatch deliver takes
failed_to_the_second = refl

abbrev toggled_start : Engine small_net
toggled_start = (set_enabled small_net (codes "a") false start).1

toggled_reached : Reachable small_net small_translators small_digits toggled_start
toggled_reached = Reachable.toggled (codes "a") false start (Reachable.started two_routes 5)

Reachable-Accounts_example : Accounts toggled_start.stats toggled_start.routes
Reachable-Accounts_example =
    Reachable-Accounts small_net small_translators small_digits toggled_start toggled_reached

handle_cto_counts_example :
    (e' : Engine small_net) × (handle_cto small_net small_translators small_digits track
        toggled_start
      ≡ some e')
    × (e'.routes ≡ toggled_start.routes)
    × AllGrown (λ k. hits track k toggled_start.routes) toggled_start.stats e'.stats
handle_cto_counts_example =
    handle_cto_counts small_net small_translators small_digits track toggled_start toggled_reached
