-- ===== src/Query/Refs/OneWay.antt =====
-- Of a relation that runs both ways between a node and its neighbour, `refs` finds the outgoing edge
-- alone (src/query.rs).
use mathlib.Core.List.{Memᴰ}
use mathlib.Core.List.Memᴰ
use build_graph.Base.{text_ord, nat_ord, pair_ord, option_ord, List, txt, ◌≡◌}
use build_graph.Query.Gather.{Found}
use build_graph.Query.Index.{Index}

abbrev IsOutgoing : Found → Type 0
IsOutgoing f = f.0.direction ≡ txt "outgoing"
