-- ===== src/Topo/Examples.antt =====
-- Small networks, and the theorems at them.
use ndn_sim.Prelude.{◌≡◌, refl, [], ◌∷◌}
use ndn_sim.Topo.{link, line, ring, star, grid, grid_cell, full_mesh, tree, tree_count}
use ndn_sim.Topo.Shape.{IsSound, generators-IsSound}
use ndn_sim.Topo.Connected.{IsConnected, generators-IsConnected}

small_grid : (grid 2 2).links ≡ link 0 1 ∷ link 0 2 ∷ link 1 3 ∷ link 2 3 ∷ []
unfolding grid grid_cell
small_grid = refl

small_tree : (tree 2 1).links ≡ link 0 1 ∷ link 0 2 ∷ []
unfolding tree tree_count
small_tree = refl

generators-IsSound_example :
    IsSound (line 5)
    × IsSound (ring 5)
    × IsSound (star 5)
    × IsSound (grid 3 4)
    × IsSound (full_mesh 5)
    × IsSound (tree 2 3)
generators-IsSound_example = generators-IsSound 5 3 4 2 3

generators-IsConnected_example :
    IsConnected (line 5)
    × IsConnected (ring 5)
    × IsConnected (star 5)
    × IsConnected (grid 3 4)
    × IsConnected (full_mesh 5)
    × IsConnected (tree 2 3)
generators-IsConnected_example = generators-IsConnected 5 3 4 2 3
