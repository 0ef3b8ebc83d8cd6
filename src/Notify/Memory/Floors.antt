-- ===== src/Notify/Memory/Floors.antt =====
-- The watermarks of notify/memory.go: the marks that a close raises, and the floor that they make.
use hmntsk.Prelude.{
  String, ◌==◌, eq_iff, eq_refl, ◌≡◌, refl, ap, ◌∙◌, subst, Bool, true, false, ◌||◌, not, List, [],
  ◌∷◌, Option, none, some, ℤ, pos, negsuc, ltb_ℤ, is_nil, contains, Bool-cases, inl, inr, arith,
}
use hmntsk.Prelude.Tables.{PairMap, PairKey, find, find-store, same_key}
use hmntsk.Task.{Time}
use hmntsk.Notify.Port.{CloseRequest}
use hmntsk.Notify.Memory.{Watermark, raised, floor, all_kinds, ensure_watermark}
use hmntsk.Notify.Closing.{closed_marks, raise_marks, raise_mark, raise_to}

-- The mark, where there is one, stands at the version or above.
abbrev pub at_least : ℤ → Option Watermark → Bool
at_least version none = false
at_least version (some mark) = not (ltb_ℤ mark.version version)

pub below_trans : (a b c : ℤ) → ltb_ℤ a b ≡ true → ltb_ℤ c b ≡ false → ltb_ℤ a c ≡ true
below_trans (pos a) (pos b) (pos c) h j = ground arith
below_trans (pos a) (pos b) (negsuc c) h j = ground arith
below_trans (pos a) (negsuc b) c h j = ground arith
below_trans (negsuc a) (pos b) (pos c) h j = refl
below_trans (negsuc a) (pos b) (negsuc c) h j = ground arith
below_trans (negsuc a) (negsuc b) (pos c) h j = refl
below_trans (negsuc a) (negsuc b) (negsuc c) h j = ground arith

raised-at_least :
    (o : Option Watermark) (f version : ℤ)
    → at_least version o ≡ true
    → ltb_ℤ (raised o f) version ≡ false
raised-at_least none f version h = cc
raised-at_least (some mark) f version h = elim (Bool-cases (ltb_ℤ f mark.version)) [
  | inl e ↦ rw e (ground (arith, h))
  | inr e ↦ rw e (ground (arith, h, below_trans f version mark.version))
]

below_asym : (a b : ℤ) → ltb_ℤ a b ≡ true → ltb_ℤ b a ≡ false
below_asym (pos a) (pos b) h = ground arith
below_asym (pos a) (negsuc b) h = cc
below_asym (negsuc a) (pos b) h = refl
below_asym (negsuc a) (negsuc b) h = ground arith

below_irrefl : (a : ℤ) → ltb_ℤ a a ≡ false
below_irrefl (pos a) = ground arith
below_irrefl (negsuc a) = ground arith

-- A floor is at least what it starts from.
raised-above :
    (o : Option Watermark) (f version : ℤ)
    → ltb_ℤ f version ≡ false
    → ltb_ℤ (raised o f) version ≡ false
raised-above none f version h = h
raised-above (some mark) f version h = elim (Bool-cases (ltb_ℤ f mark.version)) [
  | inl e ↦ rw e (ground (arith, h, below_asym f mark.version, below_trans mark.version version f))
  | inr e ↦ rw e h
]

raise_to-at_least :
    (o : Option Watermark) (version : ℤ) → ltb_ℤ (raise_to o version) version ≡ false
raise_to-at_least none version = below_irrefl version
raise_to-at_least (some mark) version = elim (Bool-cases (ltb_ℤ mark.version version)) [
  | inl e ↦ rw e (below_irrefl version)
  | inr e ↦ rw e e
]

raise_to-keeps :
    (o : Option Watermark) (version least : ℤ)
    → at_least least o ≡ true
    → ltb_ℤ (raise_to o version) least ≡ false
raise_to-keeps none version least h = cc
raise_to-keeps (some mark) version least h = elim (Bool-cases (ltb_ℤ mark.version version)) [
  | inl e ↦
      rw e
        (ground (arith, h, below_asym mark.version version, below_trans version least mark.version))
  | inr e ↦ rw e (ground (arith, h))
]

key_eq : (a b : PairKey) → same_key a b ≡ true → a ≡ b
key_eq a b h =
    ap (λ x. (x, a.1)) ((eq_iff a.0 b.0).0 (ground (arith, h)))
    ∙ ap (λ x. (b.0, x)) ((eq_iff a.1 b.1).0 (ground (arith, h)))

-- A raised mark keeps what other marks reached, and its own.
raise_mark-at_least :
    (key k : PairKey) (version least : ℤ) (at : Time) (w : PairMap Watermark)
    → at_least least (find w k) ≡ true
    → at_least least (find (raise_mark key version at w) k) ≡ true
unfolding raise_mark
raise_mark-at_least key k version least at w h = elim (Bool-cases (same_key key k)) [
  | inl e ↦
      let same : find w key ≡ find w k = ap (find w) (key_eq key k e) in
      rw (find-store w key k (record { version = raise_to (find w key) version; updated_at = at }))
        (rw e (
          ground (arith, raise_to-keeps (find w key) version least (ap (at_least least) same ∙ h))))
  | inr e ↦
      rw (find-store w key k (record { version = raise_to (find w key) version; updated_at = at }))
        (rw e h)
]

raise_mark-own :
    (key : PairKey) (version : ℤ) (at : Time) (w : PairMap Watermark)
    → at_least version (find (raise_mark key version at w) key) ≡ true
unfolding raise_mark
raise_mark-own key version at w = ground (
  arith,
  find-store w key key (record { version = raise_to (find w key) version; updated_at = at }),
  eq_refl key.0,
  eq_refl key.1,
  raise_to-at_least (find w key) version,
)

raise_marks-at_least :
    (subject : String) (kinds : List String) (version least : ℤ) (at : Time) (k : PairKey)
    (w : PairMap Watermark)
    → at_least least (find w k) ≡ true
    → at_least least (find (raise_marks subject kinds version at w) k) ≡ true
unfolding raise_marks
raise_marks-at_least subject [] version least at k w h = h
raise_marks-at_least subject (kind ∷ kinds) version least at k w h =
    raise_marks-at_least subject kinds version least at k (raise_mark (subject, kind) version at w)
      (raise_mark-at_least (subject, kind) k version least at w h)

raise_marks-raised :
    (subject : String) (kinds : List String) (version : ℤ) (at : Time) (kind : String)
    (w : PairMap Watermark)
    → contains kinds kind ≡ true
    → at_least version (find (raise_marks subject kinds version at w) (subject, kind)) ≡ true
unfolding raise_marks contains
raise_marks-raised subject [] version at kind w h = cc
raise_marks-raised subject (k ∷ kinds) version at kind w h = elim (Bool-cases (k == kind)) [
  | inl e ↦
      raise_marks-at_least subject kinds version version at (subject, kind)
        (raise_mark (subject, k) version at w)
        (subst
          (λ x. at_least version (find (raise_mark (subject, k) version at w) (subject, x)) ≡ true)
          ((eq_iff k kind).0 e) (raise_mark-own (subject, k) version at w))
  | inr e ↦
      raise_marks-raised subject kinds version at kind (raise_mark (subject, k) version at w)
        (ground (arith, h, e))
]

-- The request closes notifications of the kind.
abbrev pub covers : CloseRequest → String → Bool
covers req kind = is_nil req.kinds || contains req.kinds kind

own_kind : (kind : String) → contains (kind ∷ []) kind ≡ true
unfolding contains
own_kind kind = ground (arith, eq_refl kind)

floor_all :
    (w : PairMap Watermark) (subject kind : String) (version : ℤ)
    → at_least version (find w (subject, all_kinds)) ≡ true
    → ltb_ℤ (floor w subject kind) version ≡ false
unfolding floor
floor_all w subject kind version h =
    raised-at_least (find w (subject, all_kinds)) (raised (find w (subject, kind)) (negsuc 0))
      version h

floor_kind :
    (w : PairMap Watermark) (subject kind : String) (version : ℤ)
    → at_least version (find w (subject, kind)) ≡ true
    → ltb_ℤ (floor w subject kind) version ≡ false
unfolding floor
floor_kind w subject kind version h =
    raised-above (find w (subject, all_kinds)) (raised (find w (subject, kind)) (negsuc 0)) version
      (raised-at_least (find w (subject, kind)) (negsuc 0) version h)

pub floor-closed_marks :
    (req : CloseRequest) (kind : String) (at : Time) (w : PairMap Watermark)
    → covers req kind ≡ true
    → ltb_ℤ (floor (closed_marks req at w) req.subject kind) req.version ≡ false
unfolding closed_marks
floor-closed_marks req kind at w h =
    let w1 = ensure_watermark (req.subject, all_kinds) at w in
    elim (Bool-cases (is_nil req.kinds)) [
      | inl e ↦
          rw (closed_marks, e)
            (floor_all (raise_marks req.subject (all_kinds ∷ []) req.version at w1) req.subject kind
              req.version
              (raise_marks-raised req.subject (all_kinds ∷ []) req.version at all_kinds w1
                (own_kind all_kinds)))
      | inr e ↦
          rw (closed_marks, e)
            (floor_kind (raise_marks req.subject req.kinds req.version at w1) req.subject kind
              req.version
              (raise_marks-raised req.subject req.kinds req.version at kind w1
                (ground (arith, h, e))))
    ]
