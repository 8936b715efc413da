-- ===== src/Patch.antt =====
-- Patching an event loop (aiofastnet/api_patch.py, aiofastnet/wrapped_transport.py). Methods are
-- named by numbers; a method of the loop is one that it has, or the patched one of that name.
use aiofastnet.Base.{
  ℕ, ◌≡◌, ◌≢◌, refl, sym, ap, subst, ◌∙◌, Bool, true, false, ◌||◌, ◌&&◌, is_some, Option, none,
  some, List, [], ◌∷◌, ◌==◌, if◌then◌else◌, if-cases, contains, arith, Bool-cases, inl, inr,
}

pub data Method : Type 0 where
  builtin : ℕ → Method
  -- `partial(aiofn_method, loop)`
  aiofn : (name : ℕ) → Method

pub record Loop : Type 0 where
  -- the attributes of the loop
  pub method : ℕ → Option Method
  -- `_aiofastnet_original_methods` and `_aiofastnet_patched_methods`
  pub originals : ℕ → Option Method
  pub patched : List ℕ

abbrev pub update : ℕ → Option Method → (ℕ → Option Method) → ℕ → Option Method
update name m f other = if other == name then m else f other

-- One round of the loop of `patch_loop`, with the attribute that it finds.
abbrev pub replace : ℕ → Loop → Option Method → Loop
replace name l none = l
replace name l (some original) = record {
  method = update name (some (aiofn name)) l.method;
  originals = update name (some original) l.originals;
  patched = name ∷ l.patched;
}

unfoldable pub patch_one : ℕ → Loop → Loop
patch_one name l = if contains name l.patched then l else replace name l (l.method name)

-- `patch_loop`, over the names of `_PATCHABLE_METHODS`
unfoldable pub patch_loop : List ℕ → Loop → Loop
unfolding patch_one
patch_loop [] l = l
patch_loop (name ∷ names) l = patch_loop names (patch_one name l)

-- `_get_original_loop_method`; `none` is an `AttributeError`
unfoldable pub get_original_loop_method : Loop → ℕ → Option Method
get_original_loop_method l name = elim (l.originals name) [ some m ↦ some m | none ↦ l.method name ]

-- A loop that nothing has patched.
abbrev pub IsFresh : Loop → Type 0
IsFresh l = ((name : ℕ) → l.originals name ≡ none) × (l.patched ≡ [])

-- What the loop had: the original methods are kept for the patched names, and the others are as
-- they were.
abbrev pub IsPatched : (ℕ → Option Method) → Loop → ℕ → Bool → Type 0
IsPatched before l name true =
    (l.method name ≡ some (aiofn name)) × (l.originals name ≡ before name) × (before name ≢ none)
IsPatched before l name false = (l.method name ≡ before name) × (l.originals name ≡ none)

abbrev pub Patches : (ℕ → Option Method) → Loop → Type 0
Patches before l = (name : ℕ) → IsPatched before l name (contains name l.patched)

replace-Patches :
    (before : ℕ → Option Method) (name : ℕ) (original : Method) (l : Loop)
    → contains name l.patched ≡ false
    → l.method name ≡ some original
    → Patches before l
    → Patches before (replace name l (some original))
replace-Patches before name original l h e p other = elim (Bool-cases (other == name)) [
  | inl q ↦
      subst (λ b. IsPatched before t other (b || contains other l.patched)) (sym q)
        (
          ap (λ b. if b then some (aiofn name) else l.method other) q
              ∙ ap (λ n. some (aiofn n)) (sym (same q)),
          ap (λ b. if b then some original else l.originals other) q ∙ was q,
          λ z. some-none original (was q ∙ z),
        )
  | inr q ↦
      subst (λ b. IsPatched before t other (b || contains other l.patched)) (sym q)
        (kept (ap (λ b. if b then some (aiofn name) else l.method other) q)
          (ap (λ b. if b then some original else l.originals other) q) (contains other l.patched)
          (p other))
]
  where
    t : Loop
    t = replace name l (some original)

    some-none : (m : Method) → some m ≢ none
    some-none m = λ z. ground (arith, z)

    same : (other == name) ≡ true → other ≡ name
    same q = ground (arith, q)

    was : (other == name) ≡ true → some original ≡ before other
    was q =
        let r = subst (λ b. IsPatched before l name b) h (p name) in
        sym e ∙ r.0 ∙ ap before (sym (same q))

    kept :
        t.method other ≡ l.method other
        → t.originals other ≡ l.originals other
        → (c : Bool) → IsPatched before l other c
        → IsPatched before t other c
    kept m o true (x, y, z) = (m ∙ x, o ∙ y, z)
    kept m o false (x, y) = (m ∙ x, o ∙ y)

patch_one-Patches :
    (before : ℕ → Option Method) (name : ℕ) (l : Loop)
    → Patches before l
    → Patches before (patch_one name l)
unfolding patch_one
patch_one-Patches before name l p =
    if-cases (Patches before) (contains name l.patched) l (replace name l (l.method name)) (λ _. p)
      (λ h. found h (l.method name) refl)
  where
    found :
        contains name l.patched ≡ false
        → (o : Option Method) → l.method name ≡ o
        → Patches before (replace name l o)
    found h none e = p
    found h (some original) e = replace-Patches before name original l h e p

loop-Patches :
    (before : ℕ → Option Method) (names : List ℕ) (l : Loop)
    → Patches before l
    → Patches before (patch_loop names l)
unfolding patch_loop
loop-Patches before [] l p = p
loop-Patches before (name ∷ names) l p =
    loop-Patches before names (patch_one name l) (patch_one-Patches before name l p)

fresh-Patches : (l : Loop) → IsFresh l → Patches l.method l
fresh-Patches l (o, e) name =
    subst (λ q. IsPatched l.method l name (contains name q)) (sym e) (refl, o name)

-- Patching one method patches it if the loop has it, and leaves the others alone.
patch_one_same :
    (name : ℕ) (l : Loop)
    → contains name (patch_one name l).patched ≡ contains name l.patched || is_some (l.method name)
unfolding patch_one
patch_one_same name l =
    if-cases (λ t. contains name t.patched ≡ contains name l.patched || is_some (l.method name))
      (contains name l.patched) l (replace name l (l.method name)) (λ e. ground arith)
      (λ e. found (l.method name) e)
  where
    found :
        (o : Option Method)
        → contains name l.patched ≡ false
        → contains name (replace name l o).patched ≡ contains name l.patched || is_some o
    found none e = ground arith
    found (some m) e = ground arith

patch_one_kept :
    (name : ℕ) (l : Loop) → is_some ((patch_one name l).method name) ≡ is_some (l.method name)
unfolding patch_one
patch_one_kept name l =
    if-cases (λ t. is_some (t.method name) ≡ is_some (l.method name)) (contains name l.patched) l
      (replace name l (l.method name)) (λ _. refl) (λ _. found (l.method name) refl)
  where
    found :
        (o : Option Method)
        → l.method name ≡ o
        → is_some ((replace name l o).method name) ≡ is_some (l.method name)
    found none e = refl
    found (some m) e =
        let q : (name == name) ≡ true = ground arith in
        ap (λ b. is_some (if b then some (aiofn name) else l.method name)) q ∙ sym (ap is_some e)

patch_one_other :
    (name other : ℕ) (l : Loop)
    → (name == other) ≡ false
    → (contains name (patch_one other l).patched ≡ contains name l.patched)
      × ((patch_one other l).method name ≡ l.method name)
unfolding patch_one
patch_one_other name other l h =
    if-cases
      (λ t. (contains name t.patched ≡ contains name l.patched) × (t.method name ≡ l.method name))
      (contains other l.patched) l (replace other l (l.method other)) (λ _. (refl, refl))
      (λ _. found (l.method other))
  where
    found :
        (o : Option Method)
        → (contains name (replace other l o).patched ≡ contains name l.patched)
          × ((replace other l o).method name ≡ l.method name)
    found none = (refl, refl)
    found (some m) = (
      ap (λ b. b || contains name l.patched) h,
      ap (λ b. if b then some (aiofn other) else l.method name) h,
    )

absorb : (p m c : Bool) → (p || m) || (c && m) ≡ p || ((true || c) && m)
absorb true m c = refl
absorb false true c = refl
absorb false false true = refl
absorb false false false = refl

patched-patch_loop :
    (names : List ℕ) (name : ℕ) (l : Loop)
    → contains name (patch_loop names l).patched
      ≡ contains name l.patched || (contains name names && is_some (l.method name))
unfolding patch_loop
patched-patch_loop [] name l = ground arith
patched-patch_loop (other ∷ names) name l = elim (Bool-cases (name == other)) [
  | inl q ↦
      let e : name ≡ other = ground (arith, q) in
      let here : contains name (patch_one other l).patched
          ≡ contains name l.patched || is_some (l.method name) =
        subst
          (λ n.
            contains name (patch_one n l).patched
            ≡ contains name l.patched || is_some (l.method name))
          e (patch_one_same name l) in
      let kept : is_some ((patch_one other l).method name) ≡ is_some (l.method name) =
        subst (λ n. is_some ((patch_one n l).method name) ≡ is_some (l.method name)) e
          (patch_one_kept name l) in
      patched-patch_loop names name (patch_one other l)
      ∙ ap (λ b. b || (contains name names && is_some ((patch_one other l).method name))) here
      ∙ ap (λ b. (contains name l.patched || is_some (l.method name)) || (contains name names && b))
          kept
      ∙ absorb (contains name l.patched) (is_some (l.method name)) (contains name names)
      ∙ ap (λ b. contains name l.patched || ((b || contains name names) && is_some (l.method name)))
          (sym q)
  | inr q ↦
      let k = patch_one_other name other l q in
      patched-patch_loop names name (patch_one other l)
      ∙ ap (λ b. b || (contains name names && is_some ((patch_one other l).method name))) k.0
      ∙ ap (λ m. contains name l.patched || (contains name names && is_some m)) k.1
      ∙ ap (λ b. contains name l.patched || ((b || contains name names) && is_some (l.method name)))
          (sym q)
]

-- After `patch_loop` of a loop that nothing has patched, the methods that are patched are exactly
-- those that are named and that the loop had. The original of a patched one is kept; one that is not
-- patched is as it was, and nothing is kept for it.
pub patch_loop-Patches :
    (names : List ℕ) (l : Loop)
    → IsFresh l
    → Patches l.method (patch_loop names l)
      × ((name : ℕ)
          → contains name (patch_loop names l).patched
            ≡ contains name names && is_some (l.method name))
patch_loop-Patches names l fresh = (
  loop-Patches l.method names l (fresh-Patches l fresh),
  λ name.
      patched-patch_loop names name l
      ∙ ap (λ q. contains name q || (contains name names && is_some (l.method name))) fresh.1,
)

-- However often a loop that nothing had patched is patched, with whatever names,
-- `_get_original_loop_method` finds the method that the loop had, or raises as for a loop that had
-- none.
pub get_original-patch_loop :
    (first again : List ℕ) (l : Loop) (name : ℕ)
    → IsFresh l
    → get_original_loop_method (patch_loop again (patch_loop first l)) name ≡ l.method name
unfolding get_original_loop_method
get_original-patch_loop first again l name fresh =
    let t = patch_loop again (patch_loop first l) in
    let p = loop-Patches l.method again (patch_loop first l) (patch_loop-Patches first l fresh).0 in
    originals t (t.originals name) refl (contains name t.patched) (p name)
  where
    originals :
        (t : Loop) (o : Option Method)
        → t.originals name ≡ o
        → (c : Bool) → IsPatched l.method t name c
        → elim o [ some m ↦ some m | none ↦ t.method name ] ≡ l.method name
    originals t none e true (x, y, z) = absurd (z (sym y ∙ e))
    originals t none e false (x, y) = x
    originals t (some m) e true (x, y, z) = sym e ∙ y
    originals t (some m) e false (x, y) = absurd (ground (arith, e, y))
