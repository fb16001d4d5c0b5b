-- ===== src/Watchtower/Track.antt =====
-- Which batches a list of events names, and how often.
use qorechain_rdk.Prelude.{
  ◌+◌, ℕ, ◌≡◌, refl, ap, ◌∙◌, inl, inr, Bool, true, false, Option, none, some, List, [], ◌∷◌, ◌++◌,
  arith, if◌then◌else◌, Bool-cases,
}
use qorechain_rdk.Text.{str_eq→eq}
use qorechain_rdk.Watchtower.{same_key, on_deadline, on_batch, WatchEvent, key_of, has, Key}

-- The batch that an event reports, and the one whose deadline it warns of.
abbrev pub batch_key : WatchEvent → Option Key
batch_key (on_batch b) = some (key_of b)
batch_key _ = none

abbrev pub deadline_key : WatchEvent → Option Key
deadline_key (on_deadline info) = some (key_of info.batch)
deadline_key _ = none

abbrev pub put : Option Key → List Key → List Key
put none ks = ks
put (some k) ks = k ∷ ks

abbrev pub Unseen : Option Key → List Key → Type 0
Unseen none ks = Unit
Unseen (some k) ks = has ks k ≡ false

-- From the keys `ks`, the events name only new keys, each once, and leave the keys `ls`.
abbrev pub Track : (WatchEvent → Option Key) → List Key → List WatchEvent → List Key → Type 0
Track name ks [] ls = ks ≡ ls
Track name ks (e ∷ es) ls = Unseen (name e) ks × Track name (put (name e) ks) es ls

pub Track-append :
    (name : WatchEvent → Option Key) (ks ls ms : List Key) (es fs : List WatchEvent)
    → Track name ks es ls
    → Track name ls fs ms
    → Track name ks (es ++ fs) ms
Track-append name ks ls ms [] fs h k = rw h k
Track-append name ks ls ms (e ∷ es) fs h k = (h.0, Track-append name _ ls ms es fs h.1 k)

-- How many of the events name the key.
abbrev pub same_as : Option Key → Key → ℕ
same_as none k = 0
same_as (some l) k = if same_key l k then 1 else 0

abbrev pub times_named : (WatchEvent → Option Key) → Key → List WatchEvent → ℕ
times_named name k [] = 0
times_named name k (e ∷ es) = same_as (name e) k + times_named name k es

same_key→eq : (k l : Key) → same_key k l ≡ true → k ≡ l
same_key→eq k l h =
    let roots = str_eq→eq k.root l.root (ground arith) in
    let indexes : k.index ≡ l.index = ground arith in
    ap (λ i. record k { index = i }) indexes ∙ ap (λ r. record l { root = r }) roots

abbrev pub bit : Bool → ℕ
bit b = if b then 1 else 0

new_key :
    (o : Option Key) (k : Key) (ks : List Key)
    → Unseen o ks
    → bit (has (put o ks) k) ≡ same_as o k + bit (has ks k)
new_key none k ks h = omega arith
new_key (some l) k ks h = elim (Bool-cases (same_key l k)) [
  | inl s ↦ rw (s, ← same_key→eq l k s, h) refl
  | inr s ↦ rw s (omega arith)
]

pub Track-count :
    (name : WatchEvent → Option Key) (k : Key) (ks ls : List Key) (es : List WatchEvent)
    → Track name ks es ls
    → times_named name k es + bit (has ks k) ≡ bit (has ls k)
Track-count name k ks ls [] h = let e = ap (λ x. bit (has x k)) h in omega (arith, e)
Track-count name k ks ls (e ∷ es) h =
    omega (arith, new_key (name e) k ks h.0, Track-count name k (put (name e) ks) ls es h.1)
