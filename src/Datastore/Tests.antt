-- ===== src/Datastore/Tests.antt =====
-- The theorem on the datastore at concrete calls.
use virt_who.Base.{ℕ, ◌+◌, none, List, [], ◌∷◌}
use virt_who.Datastore.{Step, puts, gets, changes}

-- The object that was got first is changed behind the second `put`, and then the new one.
abbrev calls : List (Step ℕ)
calls =
    puts "east" 1
    ∷ gets "east" none
    ∷ puts "west" 2
    ∷ puts "east" 3
    ∷ changes 0 (λ n. n + 10)
    ∷ changes 2 (λ n. n + 1)
    ∷ []
