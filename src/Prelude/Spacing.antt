-- ===== src/Prelude/Spacing.antt =====
-- Times that are an interval or more apart, the last one first.
use audio_router.Prelude.{ℕ, ◌+◌, ◌≤◌, arith, List, [], ◌∷◌}

-- Each time is an interval or more behind the one before it.
abbrev pub Since : (interval now : ℕ) → List ℕ → Type 0
Since interval now [] = Unit {0}
Since interval now (t ∷ ts) = (t + interval ≤ now) × Since interval t ts

abbrev pub Spaced : (interval last : ℕ) → List ℕ → Type 0
Spaced interval last [] = Unit {0}
Spaced interval last (t ∷ ts) = (t ≤ last) × Since interval t ts

pub Spaced-Since :
    (interval last now : ℕ) (ts : List ℕ)
    → last + interval ≤ now
    → Spaced interval last ts
    → Since interval now ts
Spaced-Since interval last now [] l s = tt
Spaced-Since interval last now (t ∷ ts) l (m, s) = (omega arith, s)

pub Spaced-later :
    (interval last now : ℕ) (ts : List ℕ)
    → last ≤ now
    → Spaced interval last ts
    → Spaced interval now ts
Spaced-later interval last now [] l s = tt
Spaced-later interval last now (t ∷ ts) l (m, s) = (omega arith, s)
