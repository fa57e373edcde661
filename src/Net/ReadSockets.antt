-- ===== src/Net/ReadSockets.antt =====
-- std::set<int>, as the sorted list of its elements.
use libcastis_heartbeat.Prelude.{ℤ, ltb_ℤ, ◌==ℤ◌, if◌then◌else◌, List, [], ◌∷◌}

unfoldable pub insert : ℤ → List ℤ → List ℤ
insert k [] = k ∷ []
insert k (x ∷ xs) = if ltb_ℤ k x then k ∷ x ∷ xs else if k ==ℤ x then x ∷ xs else x ∷ insert k xs

unfoldable pub erase : ℤ → List ℤ → List ℤ
erase k [] = []
erase k (x ∷ xs) = if k ==ℤ x then xs else x ∷ erase k xs
