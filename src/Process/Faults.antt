-- ===== src/Process/Faults.antt =====
-- Which exceptions of a pass are worth trying again, in vios/process/engine.py: `_is_oom` and
-- `_is_transient_failure`. An exception is the name of its type and its text. The words that are
-- looked for are ASCII, and lowering a letter outside ASCII gives none of theirs.
use Prim.Native.Char.{code}
use vios_manus.Common.{
  ℕ, ◌+◌, Bool, true, false, ◌&&◌, ◌||◌, String, List, [], ◌∷◌, ◌++◌, map, any, leb, ◌==◌,
  if◌then◌else◌,
}

abbrev pub codes : String → List ℕ
codes String.[] = []
codes (String.◌∷◌ c s) = code c ∷ codes s

-- `str.lower` of one letter
abbrev pub lower : ℕ → ℕ
lower n = if leb 65 n && leb n 90 then n + 32 else n

-- `s.startswith(word)`
unfoldable pub starts : List ℕ → List ℕ → Bool
starts [] s = true
starts (x ∷ xs) [] = false
starts (x ∷ xs) (y ∷ ys) = x == y && starts xs ys

-- `word in s`
unfoldable pub contains : List ℕ → List ℕ → Bool
unfolding starts
contains word [] = starts word []
contains word (y ∷ ys) = starts word (y ∷ ys) || contains word ys

unfoldable pub is_oom : String → String → Bool
unfolding contains
is_oom name text =
    contains (codes "OutOfMemory") (codes name)
    || (contains (codes "CUDA out of memory") (codes text)
        || contains (codes "CUBLAS_STATUS_ALLOC_FAILED") (codes text))

-- The words of `_is_transient_failure`.
abbrev pub transient_words : List String
transient_words =
    "invalid device ordinal" ∷ "cudaerror" ∷ "cublas_status" ∷ "connection reset"
    ∷ "connection refused" ∷ "timed out" ∷ "timeout" ∷ "temporarily unavailable" ∷ "503" ∷ "502"
    ∷ "429" ∷ "rate limit" ∷ "too many requests" ∷ "download failed" ∷ []

unfoldable pub is_transient : String → String → Bool
unfolding is_oom contains
is_transient name text =
    let line = map lower (codes name ++ (codes ": " ++ codes text)) in
    is_oom name text || any (λ word. contains (codes word) line) transient_words
