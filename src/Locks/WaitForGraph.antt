-- ===== src/Locks/WaitForGraph.antt =====
-- TransactionManager/WaitForGraph.{h,cpp}: which transaction waits for which. The two hash maps are
-- association lists whose keys are distinct; the mutex makes each call one step. The roll-back of
-- add_edges undoes a failed allocation and is left out.
pub mod Paths
use stoneleaf_db.Common.{ℕ, zero, suc, ◌+◌, Bool, true, false, not, ◌&&◌, ◌||◌, Option, none, some}
use stoneleaf_db.Common.{List, [], ◌∷◌, ◌++◌, ◌==◌, if◌then◌else◌, length}
use stoneleaf_db.Common.Eq.{nat_eq}
use stoneleaf_db.Common.Sets.{contains, insert, erase}

-- `std::unordered_map<TransactionId, std::unordered_set<TransactionId>>`
abbrev pub Links : Type 0
Links = List (ℕ × List ℕ)

pub record WaitForGraph : Type 0 where
  pub outgoing_links : Links
  pub incoming_links : Links

-- `links.find(txn)`
unfoldable pub links_of : ℕ → Links → Option (List ℕ)
links_of txn [] = none
links_of txn ((t, ends) ∷ rest) = if t == txn then some ends else links_of txn rest

abbrev pub has : Option (List ℕ) → Bool
has none = false
has (some ends) = true

-- A change of the set of one transaction, if it has one.
unfoldable pub change : (List ℕ → List ℕ) → ℕ → Links → Links
change f txn [] = []
change f txn ((t, ends) ∷ rest) =
    if t == txn then (t, f ends) ∷ rest else (t, ends) ∷ change f txn rest

-- `links.erase(txn)`
unfoldable pub erase_links : ℕ → Links → Links
erase_links txn [] = []
erase_links txn ((t, ends) ∷ rest) = if t == txn then rest else (t, ends) ∷ erase_links txn rest

-- The same change for each transaction of a list.
unfoldable pub change_all : (List ℕ → List ℕ) → List ℕ → Links → Links
change_all f [] links = links
change_all f (txn ∷ txns) links = change_all f txns (change f txn links)

unfoldable pub exists : WaitForGraph → ℕ → Bool
exists g txn = has (links_of txn g.outgoing_links)

unfoldable pub add_node : WaitForGraph → ℕ → WaitForGraph
add_node g txn = if has (links_of txn g.outgoing_links) then g else record {
  outgoing_links = (txn, []) ∷ g.outgoing_links;
  incoming_links =
      if has (links_of txn g.incoming_links)
      then g.incoming_links
      else (txn, []) ∷ g.incoming_links;
}

abbrev pub without : WaitForGraph → ℕ → Option (List ℕ) → Option (List ℕ) → WaitForGraph
without g txn none incoming = g
without g txn (some outgoing) none = g
without g txn (some outgoing) (some incoming) = record {
  outgoing_links = erase_links txn (change_all (erase txn) incoming g.outgoing_links);
  incoming_links = erase_links txn (change_all (erase txn) outgoing g.incoming_links);
}

unfoldable pub remove : WaitForGraph → ℕ → WaitForGraph
remove g txn = without g txn (links_of txn g.outgoing_links) (links_of txn g.incoming_links)

abbrev pub ends_or_none : Option (List ℕ) → List ℕ
ends_or_none none = []
ends_or_none (some ends) = ends

-- The `for` over the neighbors of one transaction: what is new goes to the end of the queue. The
-- first part says that `to` is one of them.
unfoldable pub visit : ℕ → List ℕ → List ℕ → List ℕ → Bool × List ℕ × List ℕ
visit to [] pending visited = (false, pending, visited)
visit to (n ∷ ns) pending visited =
    let rest =
      if contains n visited
      then visit to ns pending visited
      else visit to ns (pending ++ n ∷ []) (n ∷ visited) in
    if n == to then (true, pending, visited) else rest

-- The `while (!pending.empty())` of path_exists, on fuel. A transaction enters the queue once, when
-- it enters `visited`, so one round more than there are transactions is enough.
unfoldable pub search_loop : ℕ → Links → ℕ → List ℕ → List ℕ → Bool
search_loop zero links to pending visited = false
search_loop (suc fuel) links to [] visited = false
search_loop (suc fuel) links to (current ∷ pending) visited =
    let (found, pending', visited') =
      visit to (ends_or_none (links_of current links)) pending visited in
    let rest = search_loop fuel links to pending' visited' in if found then true else rest

unfoldable pub path_exists : WaitForGraph → ℕ → ℕ → Bool
path_exists g from to =
    if not (exists g from) || not (exists g to)
    then false
    else if from == to
    then true
    else search_loop (length g.outgoing_links + 1) g.outgoing_links to (from ∷ []) (from ∷ [])

-- The validation of add_edges.
unfoldable pub all_allowed : WaitForGraph → ℕ → List ℕ → Bool
all_allowed g from [] = true
all_allowed g from (to ∷ tos) =
    has (links_of to g.incoming_links) && not (path_exists g to from) && all_allowed g from tos

-- One insertion into both indexes.
abbrev pub link : ℕ → ℕ → WaitForGraph → WaitForGraph
link from to g = record {
  outgoing_links = change (insert to) from g.outgoing_links;
  incoming_links = change (insert from) to g.incoming_links;
}

unfoldable pub link_all : ℕ → List ℕ → WaitForGraph → WaitForGraph
link_all from [] g = g
link_all from (to ∷ tos) g = link_all from tos (link from to g)

unfoldable pub add_edges : WaitForGraph → ℕ → List ℕ → WaitForGraph × Bool
add_edges g from destinations =
    if not (exists g from)
    then (g, false)
    else if not (all_allowed g from destinations)
    then (g, false)
    else (link_all from destinations g, true)

unfoldable pub add_edge : WaitForGraph → ℕ → ℕ → WaitForGraph × Bool
add_edge g from to = add_edges g from (to ∷ [])

unfoldable pub remove_edge : WaitForGraph → ℕ → ℕ → WaitForGraph
remove_edge g from to =
    if not (has (links_of from g.outgoing_links)) || not (has (links_of to g.incoming_links))
    then g
    else record {
      outgoing_links = change (erase to) from g.outgoing_links;
      incoming_links = change (erase from) to g.incoming_links;
    }

unfoldable pub remove_outgoing : WaitForGraph → ℕ → WaitForGraph
remove_outgoing g txn = if not (has (links_of txn g.outgoing_links)) then g else record {
  outgoing_links = change (λ ends. []) txn g.outgoing_links;
  incoming_links =
      change_all (erase txn) (ends_or_none (links_of txn g.outgoing_links)) g.incoming_links;
}
