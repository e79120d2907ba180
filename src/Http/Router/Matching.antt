-- ===== src/Http/Router/Matching.antt =====
-- What the match of a route decides: the regex against the paths that a route stands for.
use obelisk_asio_coro.Base.{
  ℕ, List, Bool, Bytes, Option, ◌++◌, Option, ◌≡◌, ◌∷◌, some, none, [], none, [], some,
}
use mathlib.Core.Option
use obelisk_asio_coro.Http.Router.{RouteParam}
use obelisk_asio_coro.Http.Router.Ecma.{groups_of, Group, text, run, AllPass}

-- Texts that the groups of a regex stand for.
pub data Fits : List Group → List Bytes → Type 0 where
  no_groups : Fits [] []
  fits_text :
      (t : Bytes) (gs : List Group) (ms : List Bytes) → Fits gs ms → Fits (text t ∷ gs) (t ∷ ms)
  fits_run :
      (ok : ℕ → Bool) (m : Bytes) (gs : List Group) (ms : List Bytes)
      → AllPass ok m
      → Fits gs ms
      → Fits (run ok ∷ gs) (m ∷ ms)

abbrev pub joined : List Bytes → Bytes
joined [] = []
joined (m ∷ ms) = m ++ joined ms

module _ (rest : Bytes → Option (List Bytes)) (ok : ℕ → Bool) where
  -- How a run can split a text.
  record RunSplit (s : Bytes) (ms : List Bytes) : Type 0 where
    taken : Bytes
    others : List Bytes
    behind : Bytes
    passes : AllPass ok taken
    goes_on : rest behind ≡ some others
    cut : taken ++ behind ≡ s
    result : ms ≡ taken ∷ others

-- Texts that the parts of a route stand for in a path.
abbrev pub Reads : List RouteParam → Bytes → List Bytes → Type 0
Reads pattern path ms = Fits (groups_of pattern) ms × (joined ms ≡ path)
