-- ===== src/Tuple/Cat.antt =====
-- What `cat` of include/qbind/tuple.h makes of two tuples.
use qbind.Base.{ℕ, ◌≡◌, refl, sym, ap, ◌∙◌}
use qbind.Base.Outcome.{ok}
use qbind.Object.{
  Object, Objects, null, atom, vector, list, dict, other_negative, other_positive, nil, cons, t_of,
}
use qbind.Match.Wrapper.{Wrapper, Wrappers, end, and_then, is_with_info}
use qbind.Match.Tuples.{AllSimple, Each, Conforms-Each, tuple_type_match_iff}
use qbind.Append.{Joins, snoc, tuple_append}
use qbind.Tuple.{from_k, followed_by, append_all, cat_all, get}
use qbind.Tuple.Elements.{PlaceOf, PlaceOf-Each, get-place}

-- The object is a vector or a mixed list.
abbrev pub IsList : Object → Type 0
IsList (vector a T n g) = Unit {0}
IsList (list a xs) = Unit {0}
IsList _ = ⊥

abbrev pub AllLists : Objects → Type 0
AllLists nil = Unit {0}
AllLists (cons x xs) = IsList x × AllLists xs

-- The entries of the first and then those of the second.
unfoldable pub joined : Objects → Objects → Objects
joined nil ys = ys
joined (cons x xs) ys = cons x (joined xs ys)

joined-snoc :
    (xs : Objects) (y : Object) (ys : Objects) → joined (snoc xs y) ys ≡ joined xs (cons y ys)
unfolding joined snoc
joined-snoc nil y ys = refl
joined-snoc (cons x xs) y ys = ap (cons x) (joined-snoc xs y ys)

joined-nil : (xs : Objects) → joined xs nil ≡ xs
unfolding joined
joined-nil nil = refl
joined-nil (cons x xs) = ap (cons x) (joined-nil xs)

Each-joined :
    (ws vs : Wrappers) (xs ys : Objects)
    → Each ws xs
    → Each vs ys
    → Each (followed_by ws vs) (joined xs ys)
unfolding followed_by joined
Each-joined end vs nil ys h h' = h'
Each-joined end vs (cons x xs) ys h h' = absurd h
Each-joined (and_then w ws) vs nil ys h h' = absurd h
Each-joined (and_then w ws) vs (cons x xs) ys h h' = (h.0, Each-joined ws vs xs ys h.1 h')

AllSimple-followed_by :
    (ws vs : Wrappers) → AllSimple ws → AllSimple vs → AllSimple (followed_by ws vs)
unfolding followed_by
AllSimple-followed_by end vs s s' = s'
AllSimple-followed_by (and_then w ws) vs s s' = (s.0, AllSimple-followed_by ws vs s.1 s')

module _ (jk : Joins) where
  tuple_append-list :
      (a : ℕ) (xs : Objects) (y : Object)
      → IsList y
      → tuple_append jk (list a xs) y ≡ ok (list (jk.jk_address (list a xs) y) (snoc xs y))
  unfolding tuple_append t_of
  tuple_append-list a xs null h = absurd h
  tuple_append-list a xs (atom b T w g) h = absurd h
  tuple_append-list a xs (vector b T n g) h = ap ok (jk.jk_entries a xs (vector b T n g))
  tuple_append-list a xs (list b ys) h = ap ok (jk.jk_entries a xs (list b ys))
  tuple_append-list a xs (dict b x y) h = absurd h
  tuple_append-list a xs (other_negative b k w) h = absurd h
  tuple_append-list a xs (other_positive b k n) h = absurd h

  append_all-lists :
      (a : ℕ) (xs ys : Objects)
      → AllLists ys
      → (b : ℕ) × (append_all jk (list a xs) ys ≡ ok (list b (joined xs ys)))
  unfolding append_all
  append_all-lists a xs nil h = (a, ap (λ zs. ok (list a zs)) (sym (joined-nil xs)))
  append_all-lists a xs (cons y ys) h =
      let (b, e) = append_all-lists (jk.jk_address (list a xs) y) (snoc xs y) ys h.1 in
      (b, rw (tuple_append-list a xs y h.0) (e ∙ ap (λ zs. ok (list b zs)) (joined-snoc xs y ys)))

  -- For two tuples of atoms, vectors and nested vectors that accept their elements, each type its
  -- own, the second without atoms: `cat` returns a tuple object of the elements of the first and
  -- then those of the second, and `get` returns each element at the place of its type.
  pub cat_all-joined :
      (ws vs : Wrappers) (a : ℕ) (xs ys : Objects)
      → AllSimple ws
      → AllSimple vs
      → Each ws xs
      → Each vs ys
      → AllLists ys
      → (b : ℕ) × (cat_all jk ws vs (list a xs) ys ≡ ok (list b (joined xs ys)))
        × ((i : ℕ) (w : Wrapper) (x : Object)
            → PlaceOf (followed_by ws vs) (joined xs ys) i w x
            → get w i (list b (joined xs ys)) ≡ ok x)
  unfolding cat_all from_k is_with_info
  cat_all-joined ws vs a xs ys s s' h h' lists =
      let (b, e) = append_all-lists a xs ys lists in
      let simple = AllSimple-followed_by ws vs s s' in
      let each = Each-joined ws vs xs ys h h' in
      (
        b,
        rw (
          e,
          (tuple_type_match_iff (followed_by ws vs) (list b (joined xs ys))).1
              (Conforms-Each (followed_by ws vs) b (joined xs ys) simple each),
        ),
        λ i w x place.
            let (is_simple_w, accepted, there) = PlaceOf-Each place simple each in
            get-place w x b i (joined xs ys) is_simple_w accepted there,
      )
