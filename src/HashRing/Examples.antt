-- ===== src/HashRing/Examples.antt =====
-- Rendezvous hashing at three nodes, with a hash that counts.
use vsector.Base.{String, ℕ, ◌≡◌, ◌⊎◌, refl, List, [], ◌∷◌, ne_of_eq_false, ◌==◌, if◌then◌else◌}
use vsector.Exec.{ok}
use vsector.HashRing.{get_node, add_node, remove_node}
use vsector.HashRing.Rendezvous.{
  Heaviest, get_node-Heaviest, get_node-remove_node, get_node-add_node,
}

abbrev weights : String → ℕ
weights s = if s == "k#b" then 9 else if s == "k#c" then 7 else 5

abbrev three : List String
three = "a" ∷ "b" ∷ "c" ∷ []

get_node-Heaviest_example : Heaviest weights "k" three (get_node weights "k" three)
get_node-Heaviest_example = get_node-Heaviest weights "k" three

get_node-remove_node_example : get_node weights "k" (remove_node "c" three) ≡ ok "b"
unfolding get_node
get_node-remove_node_example =
    get_node-remove_node weights "k" "c" "b" three refl (ne_of_eq_false "c" "b" refl)

get_node-add_node_example :
    (get_node weights "k" (add_node "d" three) ≡ ok "b")
    ⊎ (get_node weights "k" (add_node "d" three) ≡ ok "d")
unfolding get_node
get_node-add_node_example = get_node-add_node weights "k" "d" "b" three refl
