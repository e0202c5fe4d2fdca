-- ===== src/Matrix/Manager/Nodes.antt =====
-- `GetReadyNodes` on nodes with at most one condition that says that they are ready.
use k8s_service_validator.Prelude.{
  ℕ, suc, ◌≤◌, Bool, true, false, ◌||◌, List, [], ◌∷◌, ◌++◌, ◌≡◌, refl, sym, none, arith, All,
  append_assoc, append-nil, if◌then◌else◌,
}
use k8s_service_validator.Text.{text_eq}
use k8s_service_validator.Matrix.Cluster.{Condition, Node, Cluster, add_node, ready_nodes, is_ready}
use k8s_service_validator.Matrix.Manager.{get_ready_nodes}

-- How often a node says that it is ready, and whether it does.
abbrev times_ready : List Condition → ℕ
times_ready [] = 0
times_ready (c ∷ cs) = if is_ready c then suc (times_ready cs) else times_ready cs

abbrev says_ready : List Condition → Bool
says_ready [] = false
says_ready (c ∷ cs) = is_ready c || says_ready cs

abbrev that_say_ready : List Node → List Node
that_say_ready [] = []
that_say_ready (n ∷ ns) =
    if says_ready n.conditions then n ∷ that_say_ready ns else that_say_ready ns

add_node_lem :
    (node : Node) (cs : List Condition) (nodes : List Node)
    → times_ready cs ≤ 1
    → (says_ready cs ≡ false → add_node node cs nodes ≡ nodes)
      × (says_ready cs ≡ true → add_node node cs nodes ≡ nodes ++ node ∷ [])
unfolding add_node
add_node_lem node [] nodes h = ((λ k. refl), (λ k. cc))
add_node_lem node (c ∷ cs) nodes h =
    ground
      (arith, add_node_lem node cs nodes, add_node_lem node cs (nodes ++ node ∷ []), never_ready cs)
  where
    never_ready : (cs : List Condition) → times_ready cs ≡ 0 → says_ready cs ≡ false
    never_ready [] k = refl
    never_ready (c ∷ cs) k = ground (arith, never_ready cs)

ready_nodes_lem :
    (items nodes : List Node)
    → All (λ n. times_ready n.conditions ≤ 1) items
    → ready_nodes items nodes ≡ nodes ++ that_say_ready items
unfolding ready_nodes
ready_nodes_lem [] nodes h = sym (append-nil nodes)
ready_nodes_lem (n ∷ items) nodes (hn, h) = ground (
  arith,
  add_node_lem n n.conditions nodes hn,
  ready_nodes_lem items nodes h,
  ready_nodes_lem items (nodes ++ n ∷ []) h,
  append_assoc nodes (n ∷ []) (that_say_ready items),
)

-- If no node of the list says more than once that it is ready, `GetReadyNodes` returns the nodes
-- that say so, in their order, without an error.
get_ready_nodes_lem :
    (cluster : Cluster) (w w' : cluster.World) (items : List Node)
    → cluster.list_nodes w ≡ ((items, none), w')
    → All (λ n. times_ready n.conditions ≤ 1) items
    → get_ready_nodes cluster w ≡ ((that_say_ready items, none), w')
unfolding get_ready_nodes
get_ready_nodes_lem cluster w w' items e h = ground (arith, ready_nodes_lem items [] h)
