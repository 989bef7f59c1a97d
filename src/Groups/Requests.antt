-- ===== src/Groups/Requests.antt =====
-- basegroup.go: startRequests makes one request for each id.
use xm.Base.{
  ◌≡◌, refl, ap, sym, ◌∙◌, Bool, true, false, Option, none, some, List, [], ◌∷◌, ◌++◌, map, Bytes,
  bytes_eq, if◌then◌else◌, Map, lookup, insert, subst, bytes_eq_sound, lookup-insert_self,
  lookup-insert_ne, is_member, append_assoc, append-nil, Bool-cases, Option-cases, inl, inr, arith,
}
use xm.Groups.{grouped, start_loop, start_requests}

bytes_eq-sym : (xs ys : Bytes) → bytes_eq xs ys ≡ bytes_eq ys xs
unfolding bytes_eq
bytes_eq-sym [] [] = refl
bytes_eq-sym [] (y ∷ ys) = refl
bytes_eq-sym (x ∷ xs) [] = refl
bytes_eq-sym (x ∷ xs) (y ∷ ys) = ground (arith, bytes_eq-sym xs ys)

module _ {L R : Type 0} (id : L → Bytes) (request : L → R) where
  -- The loggers whose id is not among those before.
  unfoldable pub first_by_id : List Bytes → List L → List L
  first_by_id seen [] = []
  first_by_id seen (l ∷ ls) = elim (is_member (id l) seen) [
    | true ↦ first_by_id seen ls
    | false ↦ l ∷ first_by_id (id l ∷ seen) ls
  ]

  -- The logger that the request of an id comes from.
  unfoldable pub first_with : Bytes → List L → Option L
  first_with i [] = none
  first_with i (l ∷ ls) = if bytes_eq (id l) i then some l else first_with i ls

  known : Bytes → Map R → Bool
  known i m = elim (lookup i m) [ none ↦ false | some r ↦ true ]

  -- The map has a request for exactly the ids seen.
  Agrees : List Bytes → Map R → Type 0
  Agrees seen m = (i : Bytes) → known i m ≡ is_member i seen

  Agrees-insert :
      (k : Bytes) (r : R) (seen : List Bytes) (m : Map R)
      → Agrees seen m
      → Agrees (k ∷ seen) (insert k r m)
  unfolding known Agrees is_member
  Agrees-insert k r seen m h i = elim (Bool-cases (bytes_eq k i)) [
    | inl e ↦
        let q = bytes_eq_sound k i e in
        let l : lookup i (insert k r m) ≡ some r =
          subst (λ (j : Bytes). lookup j (insert k r m) ≡ some r) q (lookup-insert_self k r m) in
        rw (l, known, bytes_eq-sym i k ∙ e) refl
    | inr n ↦ rw (lookup-insert_ne k i r m n, known, bytes_eq-sym i k ∙ n) (h i)
  ]

  loop_requests :
      (ls : List L) (seen : List Bytes) (rs : List R) (m : Map R)
      → Agrees seen m
      → (start_loop id request ls rs m).0 ≡ rs ++ map request (first_by_id seen ls)
  unfolding start_loop first_by_id Agrees
  loop_requests [] seen rs m h = sym (append-nil rs)
  loop_requests (l ∷ ls) seen rs m h = elim (Option-cases (lookup (id l) m)) [
    | inl n ↦
        let u : is_member (id l) seen ≡ false =
          sym (h (id l)) ∙ unfold known in rw (n, known) refl in
        rw (n, start_loop, u, first_by_id)
          (loop_requests ls (id l ∷ seen) (rs ++ request l ∷ []) _
              (Agrees-insert (id l) (request l) seen m h)
            ∙ append_assoc rs (request l ∷ []) _)
    | inr (r, e) ↦
        let u : is_member (id l) seen ≡ true =
          sym (h (id l)) ∙ unfold known in rw (e, known) refl in
        rw (e, start_loop, u, first_by_id) (loop_requests ls seen rs m h)
  ]

  unfoldable pub request_of : Option L → Option R
  request_of none = none
  request_of (some l) = some (request l)

  or_else : Option R → Option R → Option R
  or_else none b = b
  or_else (some r) b = some r

  loop_map :
      (i : Bytes) (ls : List L) (rs : List R) (m : Map R)
      → lookup i (start_loop id request ls rs m).1
        ≡ or_else (lookup i m) (request_of (first_with i ls))
  unfolding start_loop first_with request_of or_else
  loop_map i [] rs m = elim (Option-cases (lookup i m)) [
    | inl n ↦ rw n refl
    | inr (r, e) ↦ rw e refl
  ]
  loop_map i (l ∷ ls) rs m = elim (Option-cases (lookup (id l) m)) [
    | inl n ↦ elim (Bool-cases (bytes_eq (id l) i)) [
      | inl e ↦
          let q = bytes_eq_sound (id l) i e in
          let a : lookup i m ≡ none = subst (λ (j : Bytes). lookup j m ≡ none) q n in
          let b : lookup i (insert (id l) (request l) m) ≡ some (request l) =
            subst (λ (j : Bytes). lookup j (insert (id l) (request l) m) ≡ some (request l)) q
              (lookup-insert_self (id l) (request l) m) in
          rw (n, start_loop, e, a)
            (loop_map i ls (rs ++ request l ∷ []) (insert (id l) (request l) m)
              ∙ ap (λ o. or_else o (request_of (first_with i ls))) b)
      | inr d ↦
          rw (n, start_loop, d)
            (loop_map i ls (rs ++ request l ∷ []) (insert (id l) (request l) m)
              ∙ ap (λ o. or_else o (request_of (first_with i ls)))
                  (lookup-insert_ne (id l) i (request l) m d))
    ]
    | inr (r, e) ↦ elim (Bool-cases (bytes_eq (id l) i)) [
      | inl q ↦
          let a : lookup i m ≡ some r =
            subst (λ (j : Bytes). lookup j m ≡ some r) (bytes_eq_sound (id l) i q) e in
          rw (e, start_loop, a)
            (loop_map i ls rs m ∙ ap (λ o. or_else o (request_of (first_with i ls))) a)
      | inr d ↦ rw (e, start_loop, d) (loop_map i ls rs m)
    ]
  ]

  -- For two loggers and more: the group has one request for each id, made by the first logger that has the id
  -- and in the order of those, and the map gives an id's request.
  pub start_requests-first :
      (a b : L) (ls : List L) (i : Bytes)
      → ((start_requests id request (a ∷ b ∷ ls)).0
          ≡ grouped (map request (first_by_id [] (a ∷ b ∷ ls))))
        × (lookup i (start_requests id request (a ∷ b ∷ ls)).1
            ≡ request_of (first_with i (a ∷ b ∷ ls)))
  unfolding start_requests or_else Agrees is_member
  start_requests-first a b ls i = (
    ap grouped (loop_requests (a ∷ b ∷ ls) [] [] [] (λ j. unfold known in refl)),
    loop_map i (a ∷ b ∷ ls) [] [],
  )
