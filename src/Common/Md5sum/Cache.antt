-- ===== src/Common/Md5sum/Cache.antt =====
-- The cache of `message_definition_to_md5sum_recursive` changes no md5sum.
use roslibrust.Base.{
  ℕ, zero, suc, ◌≡◌, refl, ap, sym, ◌∙◌, subst, none, some, List, [], ◌∷◌, ◌++◌, Text, codes,
  text_eq, text_eq_iff, split, Map, get, insert, get-insert, if◌then◌else◌, Result, ok, err, panic,
  diverge, ◌>>=◌, arith, Bool-cases, Option-cases, inl, inr,
}
use roslibrust.Codegen.Strs.{trim, trim_end, lines}
use roslibrust.Common.Md5sum.{
  Md5Error, bad_line, Hashes, replace, first, split_whitespace, is_base_type, full_field_type,
  get_def, hash_type, hash_line, hash_lines, md5sum_recursive,
}

bind-ok :
    {E A B : Type 0} (r : Result E A) (f : A → Result E B) (b : B)
    → (do a ← r; f a) ≡ ok b
    → (a : A) × (r ≡ ok a) × (f a ≡ ok b)
bind-ok (ok a) f b e = (a, refl, e)
bind-ok (err x) f b e = absurd (ground (arith, e))
bind-ok panic f b e = absurd (ground (arith, e))
bind-ok diverge f b e = absurd (ground (arith, e))

value_or : {E A : Type 0} → A → Result E A → A
value_or a (ok x) = x
value_or a _ = a

ok_path : {E A : Type 0} (a b : A) (r : Result E A) → r ≡ ok a → r ≡ ok b → a ≡ b
unfolding value_or
ok_path a b r p q = sym (ap (value_or a) p) ∙ ap (value_or a) q

module _ (md5 : Text → Text) where
  -- The same without a cache.
  abbrev pub plain_line :
      (Text → Result Md5Error Text) → Text → Text → List Text → Result Md5Error Text
  plain_line sub pkg_name line_raw (raw_field_type ∷ field_name ∷ rest) =
      if is_base_type (first (split b'[' raw_field_type)) then ok line_raw else (do
        hash ← sub (full_field_type pkg_name (first (split b'[' raw_field_type)))
        ok (replace raw_field_type hash line_raw))
  plain_line sub pkg_name line_raw _ = err bad_line

  unfoldable pub plain_lines :
      (Text → Result Md5Error Text) → Text → List Text → Result Md5Error Text
  plain_lines sub pkg_name [] = ok []
  plain_lines sub pkg_name (line_raw ∷ rest) = do
    line ← plain_line sub pkg_name line_raw (split_whitespace line_raw)
    field_def ← plain_lines sub pkg_name rest
    ok (line ++ (codes "\n" ++ field_def))

  unfoldable pub plain_md5sum : ℕ → Map Text → Text → Result Md5Error Text
  plain_md5sum zero defs msg_type = diverge
  plain_md5sum (suc n) defs msg_type = do
    def ← get_def msg_type defs
    field_def ← plain_lines (plain_md5sum n defs) (first (split b'/' msg_type)) (lines def)
    ok (md5 (trim_end (trim field_def)))

  -- Two functions that agree where both give a result.
  abbrev Agree : (Text → Result Md5Error Text) → (Text → Result Md5Error Text) → Type 0
  Agree f g = (t x y : Text) → f t ≡ ok x → g t ≡ ok y → x ≡ y

  plain_line-Agree :
      (f g : Text → Result Md5Error Text) (pkg_name line_raw : Text) (words : List Text)
      (x y : Text)
      → Agree f g
      → plain_line f pkg_name line_raw words ≡ ok x
      → plain_line g pkg_name line_raw words ≡ ok y
      → x ≡ y
  plain_line-Agree f g pkg_name line_raw [] x y h p q = absurd (ground (arith, p))
  plain_line-Agree f g pkg_name line_raw (t ∷ []) x y h p q = absurd (ground (arith, p))
  plain_line-Agree f g pkg_name line_raw (t ∷ n ∷ ws) x y h p q =
      elim (Bool-cases (is_base_type (first (split b'[' t)))) [
        | inl e ↦ ok_path x y (ok line_raw) (rw e at p) (rw e at q)
        | inr e ↦
            let (a, pa, pr) =
              bind-ok (f (full_field_type pkg_name (first (split b'[' t)))) _ x (rw e at p) in
            let (b, qb, qr) =
              bind-ok (g (full_field_type pkg_name (first (split b'[' t)))) _ y (rw e at q) in
            ok_path x y (ok (replace t a line_raw)) pr (rw (h _ a b pa qb) qr)
      ]

  plain_lines-Agree :
      (f g : Text → Result Md5Error Text) (pkg_name : Text) (raw : List Text) (x y : Text)
      → Agree f g
      → plain_lines f pkg_name raw ≡ ok x
      → plain_lines g pkg_name raw ≡ ok y
      → x ≡ y
  unfolding plain_lines
  plain_lines-Agree f g pkg_name [] x y h p q = ok_path x y (ok []) p q
  plain_lines-Agree f g pkg_name (line_raw ∷ rest) x y h p q =
      let (a, pa, pr) =
        bind-ok (plain_line f pkg_name line_raw (split_whitespace line_raw)) _ x p in
      let (b, pb, ps) = bind-ok (plain_lines f pkg_name rest) _ x pr in
      let (c, qc, qr) =
        bind-ok (plain_line g pkg_name line_raw (split_whitespace line_raw)) _ y q in
      let (d, qd, qs) = bind-ok (plain_lines g pkg_name rest) _ y qr in
      ok_path x y (ok (a ++ (codes "\n" ++ b))) ps (
        rw (plain_line-Agree f g pkg_name line_raw (split_whitespace line_raw) a c h pa qc)
          (rw (plain_lines-Agree f g pkg_name rest b d h pb qd) qs))

  plain_md5sum-Agree :
      (n m : ℕ) (defs : Map Text) → Agree (plain_md5sum n defs) (plain_md5sum m defs)
  unfolding plain_md5sum
  plain_md5sum-Agree zero m defs t x y p q = absurd (ground (arith, p))
  plain_md5sum-Agree (suc n) zero defs t x y p q = absurd (ground (arith, q))
  plain_md5sum-Agree (suc n) (suc m) defs t x y p q =
      let (a, pa, pr) = bind-ok (get_def t defs) _ x p in
      let (b, pb, ps) =
        bind-ok (plain_lines (plain_md5sum n defs) (first (split b'/' t)) (lines a)) _ x pr in
      let (c, qc, qr) = bind-ok (get_def t defs) _ y q in
      let (d, qd, qs) =
        bind-ok (plain_lines (plain_md5sum m defs) (first (split b'/' t)) (lines c)) _ y qr in
      ok_path x y (ok (md5 (trim_end (trim b)))) ps (
        rw
          (plain_lines-Agree (plain_md5sum n defs) (plain_md5sum m defs) (first (split b'/' t))
            (lines a) b d (plain_md5sum-Agree n m defs) pb
            (subst (λ z. plain_lines (plain_md5sum m defs) (first (split b'/' t)) (lines z) ≡ ok d)
              (ok_path c a (get_def t defs) qc pa) qd))
          qs)

  -- The cached md5sums are those without a cache.
  abbrev pub IsConsistent : Map Text → Hashes → Type 0
  IsConsistent defs hashes =
      (k v x : Text) (m : ℕ) → get k hashes ≡ some v → plain_md5sum m defs k ≡ ok x → v ≡ x

  -- A cached function gives what the plain one does, and a consistent cache.
  abbrev Caches :
      Map Text
      → (Text → Hashes → Result Md5Error (Text × Hashes))
      → (Text → Result Md5Error Text)
      → Type 0
  Caches defs f g =
      (t x : Text) (hashes : Hashes)
      → IsConsistent defs hashes
      → g t ≡ ok x
      → (later : Hashes) × (f t hashes ≡ ok (x, later)) × IsConsistent defs later

  some_path : (a b : Text) → some a ≡ some b → a ≡ b
  some_path a b p = ap (λ o. elim o as (λ _. Text) [ none ↦ a | some x ↦ x ]) p

  insert-IsConsistent :
      (n : ℕ) (defs : Map Text) (t x : Text) (hashes : Hashes)
      → IsConsistent defs hashes
      → plain_md5sum n defs t ≡ ok x
      → IsConsistent defs (insert t x hashes)
  insert-IsConsistent n defs t x hashes c p k v y m e q = elim (Bool-cases (text_eq t k)) [
    | inl i ↦
        sym (some_path x v (rw i at (rw (get-insert t k x hashes) at e)))
        ∙ plain_md5sum-Agree n m defs t x y p (rw ((text_eq_iff t k).0 i) q)
    | inr i ↦ c k v y m (rw i at (rw (get-insert t k x hashes) at e)) q
  ]

  hash_type-Caches :
      (n : ℕ) (defs : Map Text) (f : Text → Hashes → Result Md5Error (Text × Hashes)) (t x : Text)
      (hashes : Hashes)
      → Caches defs f (plain_md5sum n defs)
      → IsConsistent defs hashes
      → plain_md5sum n defs t ≡ ok x
      → (later : Hashes) × (hash_type md5 f t hashes ≡ ok (x, later)) × IsConsistent defs later
  hash_type-Caches n defs f t x hashes h c p = elim (Option-cases (get t hashes)) [
    | inl e ↦ let (later, q, d) = h t x hashes c p in (later, rw (e, hash_type) q, d)
    | inr (v, e) ↦ (hashes, rw (e, hash_type) (rw (c t v x n e p) refl), c)
  ]

  hash_line-Caches :
      (n : ℕ) (defs : Map Text) (f : Text → Hashes → Result Md5Error (Text × Hashes))
      (pkg_name line_raw : Text) (words : List Text) (x : Text) (hashes : Hashes)
      → Caches defs f (plain_md5sum n defs)
      → IsConsistent defs hashes
      → plain_line (plain_md5sum n defs) pkg_name line_raw words ≡ ok x
      → (later : Hashes) × (hash_line md5 f pkg_name line_raw words hashes ≡ ok (x, later))
        × IsConsistent defs later
  hash_line-Caches n defs f pkg_name line_raw [] x hashes h c p = absurd (ground (arith, p))
  hash_line-Caches n defs f pkg_name line_raw (t ∷ []) x hashes h c p = absurd (ground (arith, p))
  hash_line-Caches n defs f pkg_name line_raw (t ∷ w ∷ ws) x hashes h c p =
      elim (Bool-cases (is_base_type (first (split b'[' t)))) [
        | inl e ↦ (hashes, rw e (ap (λ r. do l ← r; ok (l, hashes)) (rw e at p)), c)
        | inr e ↦
            let (a, pa, pr) =
              bind-ok (plain_md5sum n defs (full_field_type pkg_name (first (split b'[' t)))) _ x
                (rw e at p) in
            let (later, q, d) =
              hash_type-Caches n defs f (full_field_type pkg_name (first (split b'[' t))) a hashes h
                c pa in
            (later, rw e (rw q (ap (λ r. do l ← r; ok (l, later)) pr)), d)
      ]

  hash_lines-Caches :
      (n : ℕ) (defs : Map Text) (f : Text → Hashes → Result Md5Error (Text × Hashes))
      (pkg_name : Text) (raw : List Text) (x : Text) (hashes : Hashes)
      → Caches defs f (plain_md5sum n defs)
      → IsConsistent defs hashes
      → plain_lines (plain_md5sum n defs) pkg_name raw ≡ ok x
      → (later : Hashes) × (hash_lines md5 f pkg_name raw hashes ≡ ok (x, later))
        × IsConsistent defs later
  unfolding hash_lines plain_lines
  hash_lines-Caches n defs f pkg_name [] x hashes h c p =
      (hashes, ap (λ r. do l ← r; ok (l, hashes)) p, c)
  hash_lines-Caches n defs f pkg_name (line_raw ∷ rest) x hashes h c p =
      let (a, pa, pr) =
        bind-ok (plain_line (plain_md5sum n defs) pkg_name line_raw (split_whitespace line_raw)) _ x
          p in
      let (b, pb, ps) = bind-ok (plain_lines (plain_md5sum n defs) pkg_name rest) _ x pr in
      let (middle, q, d) =
        hash_line-Caches n defs f pkg_name line_raw (split_whitespace line_raw) a hashes h c pa in
      let (later, r, d') = hash_lines-Caches n defs f pkg_name rest b middle h d pb in
      (later, rw q (rw r (ap (λ z. do l ← z; ok (l, later)) ps)), d')

  -- With a cache whose md5sums are those without a cache, the md5sum of a type is the one without a
  -- cache, if there is one, and the cache behind it is again such a cache.
  pub md5sum_recursive-plain_md5sum :
      (n : ℕ) (defs : Map Text) (msg_type hash : Text) (hashes : Hashes)
      → IsConsistent defs hashes
      → plain_md5sum n defs msg_type ≡ ok hash
      → (later : Hashes) × (md5sum_recursive md5 n defs msg_type hashes ≡ ok (hash, later))
        × IsConsistent defs later
  unfolding md5sum_recursive plain_md5sum
  md5sum_recursive-plain_md5sum zero defs t x hashes c p = absurd (ground (arith, p))
  md5sum_recursive-plain_md5sum (suc n) defs t x hashes c p =
      let (a, pa, pr) = bind-ok (get_def t defs) _ x p in
      let (b, pb, ps) =
        bind-ok (plain_lines (plain_md5sum n defs) (first (split b'/' t)) (lines a)) _ x pr in
      let (middle, q, d) =
        hash_lines-Caches n defs (md5sum_recursive md5 n defs) (first (split b'/' t)) (lines a) b
          hashes (λ s y hs e r. md5sum_recursive-plain_md5sum n defs s y hs e r) c pb in
      (
        insert t x middle,
        rw pa (rw q (ap (λ z. do l ← z; ok (l, insert t l middle)) ps)),
        insert-IsConsistent (suc n) defs t x middle d p,
      )
