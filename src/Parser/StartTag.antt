-- ===== src/Parser/StartTag.antt =====
-- parser.go: `parseStartTag` on a tag with no transition in its attributes.
use pushup.Base.{
  ℕ, ◌+◌, ◌≤◌, ◌≡◌, refl, ap, ◌∙◌, Bool, true, false, none, List, [], ◌∷◌, ◌++◌, ltb, if◌then◌else◌,
  length, All, Bytes, arith,
}
use pushup.Lexer.Defs.{Attr}
use pushup.Tree.Node.{Node}
use pushup.Parser.State.{Parser, returned, M, pure, ◌>>=◌}
use pushup.Parser.Bind.{>>=-returned}
use pushup.Parser.Html.{
  index_trans, emit_literal_from_range, name_or_value, parse_attribute_name_or_value, gap,
  attr_value, start_tag_attr, start_tag_attrs, start_tag_of, parse_start_tag,
}
use pushup.Parser.Ranges.{Covers, Covers-append, emit_literal_from_range-Covers}

-- Neither the name nor the value has a `^`.
abbrev pub IsStatic : Attr → Type 0
IsStatic a = (index_trans a.name.text ≡ none) × (index_trans a.value.text ≡ none)

-- Where parseStartTag stands behind an attribute: behind its value, if that starts behind its name.
abbrev pub name_end : Attr → ℕ
name_end a = a.name.start + length a.name.text

abbrev pub value_end : Attr → ℕ
value_end a = a.value.start + length a.value.text

abbrev pub attr_end : Attr → ℕ
attr_end a = if ltb (name_end a) a.value.start then value_end a else name_end a

-- The attributes stand in the tag one behind the other, from `pos` to `len`.
abbrev pub IsOrdered : ℕ → ℕ → List Attr → Type 0
IsOrdered pos len [] = pos + 1 ≤ len
IsOrdered pos len (a ∷ as') = (pos ≤ a.name.start) × IsOrdered (attr_end a) len as'

IsOrdered-le : (pos len : ℕ) (as' : List Attr) → IsOrdered pos len as' → pos + 1 ≤ len
IsOrdered-le pos len [] h = h
IsOrdered-le pos len (a ∷ as') (h, k) = ground (arith, IsOrdered-le (attr_end a) len as' k)

-- A call that emits literals from `pos` up to the place that it returns.
abbrev Emits : Parser → ℕ → ℕ → M (List Node × ℕ) → Type 0
Emits p pos to m = (ns : List Node) × (m p ≡ returned (ns, to) p) × Covers p.start p.raw pos ns to

module _ (code : M Node) where
  gap-Emits :
      (pos to : ℕ) (p : Parser)
      → pos ≤ to
      → to + 1 ≤ length p.raw
      → Emits p pos to (gap code pos to)
  unfolding gap
  gap-Emits pos to p h k = by_test (ltb pos to) refl
    where
      by_test :
          (t : Bool)
          → ltb pos to ≡ t
          → Emits p pos to (
              if t
              then (emit_literal_from_range pos to >>= λ n. pure (n ∷ [], to))
              else pure ([], pos))
      by_test true q =
          let (n, e, c) =
            emit_literal_from_range-Covers pos to p h (omega (arith, k)) (omega (arith, h, k)) in
          (
            n ∷ [],
            >>=-returned (emit_literal_from_range pos to) (λ n. pure (n ∷ [], to)) p n p e,
            c,
          )
      by_test false q =
          let same : pos ≡ to = ground (arith, q, h) in
          ([], ap (λ x. returned ([], x) p) same, unfold Covers in same)

  name_or_value-Emits :
      (text : Bytes) (from to pos : ℕ) (p : Parser)
      → index_trans text ≡ none
      → from ≤ to
      → to + 1 ≤ length p.raw
      → Emits p from to (parse_attribute_name_or_value code text from to pos)
  unfolding parse_attribute_name_or_value
  name_or_value-Emits text from to pos p e h k =
      let (n, q, c) =
        emit_literal_from_range-Covers from to p h (omega (arith, k)) (omega (arith, h, k)) in
      (
        n ∷ [],
        ap (λ i. name_or_value code text from to pos i p) e
            ∙ >>=-returned (emit_literal_from_range from to) (λ n. pure (n ∷ [], to)) p n p q,
        c,
      )

  attr_value-Emits :
      (a : Attr) (pos : ℕ) (p : Parser)
      → index_trans a.value.text ≡ none
      → (if ltb pos a.value.start then value_end a else pos) + 1 ≤ length p.raw
      → Emits p pos (if ltb pos a.value.start then value_end a else pos) (attr_value code a pos)
  unfolding attr_value
  attr_value-Emits a pos p s k = by_test (ltb pos a.value.start) refl k
    where
      by_test :
          (t : Bool)
          → ltb pos a.value.start ≡ t
          → (if t then value_end a else pos) + 1 ≤ length p.raw
          → Emits p pos (if t then value_end a else pos) (
              if t
              then (do
                n ← emit_literal_from_range pos a.value.start
                (ns, to) ←
                    parse_attribute_name_or_value code a.value.text a.value.start
                      (value_end a)
                      a.value.start
                pure (n ∷ ns, to))
              else pure ([], pos))
      by_test true q k =
          let (n, e, c) =
            emit_literal_from_range-Covers pos a.value.start p (ground (arith, q))
              (omega (arith, k)) (ground (arith, q, k)) in
          let (ns, e', c') =
            name_or_value-Emits a.value.text a.value.start (value_end a) a.value.start p s
              (omega arith) k in
          (
            n ∷ ns,
            ground (arith, e, e'),
            Covers-append p.start p.raw pos a.value.start (value_end a) (n ∷ []) ns c c',
          )
      by_test false q k = ([], refl, unfold Covers in refl)

  start_tag_attr-Emits :
      (a : Attr) (pos : ℕ) (p : Parser)
      → IsStatic a
      → pos ≤ a.name.start
      → attr_end a + 1 ≤ length p.raw
      → Emits p pos (attr_end a) (start_tag_attr code a pos)
  unfolding start_tag_attr
  start_tag_attr-Emits a pos p (s, s') h k =
      let len : name_end a + 1 ≤ length p.raw = ground (arith, k) in
      let (xs, ex, cx) = gap-Emits pos a.name.start p h (omega (arith, len)) in
      let (ys, ey, cy) =
        name_or_value-Emits a.name.text a.name.start (name_end a) a.name.start p s (omega arith)
          len in
      let (zs, ez, cz) = attr_value-Emits a (name_end a) p s' k in
      (
        xs ++ (ys ++ zs),
        ground (arith, ex, ey, ez),
        Covers-append p.start p.raw pos a.name.start (attr_end a) xs (ys ++ zs) cx
            (Covers-append p.start p.raw a.name.start (name_end a) (attr_end a) ys zs cy cz),
      )

  start_tag_attrs-Covers :
      (as' : List Attr) (pos : ℕ) (p : Parser)
      → All IsStatic as'
      → IsOrdered pos (length p.raw) as'
      → (ns : List Node) × (start_tag_attrs code as' pos p ≡ returned ns p)
        × Covers p.start p.raw pos ns (length p.raw)
  unfolding start_tag_attrs
  start_tag_attrs-Covers [] pos p s h =
      let (n, e, c) =
        emit_literal_from_range-Covers pos (length p.raw) p (omega (arith, h)) (omega arith) h in
      (
        n ∷ [],
        >>=-returned (emit_literal_from_range pos (length p.raw)) (λ n. pure (n ∷ [])) p n p e,
        c,
      )
  start_tag_attrs-Covers (a ∷ as') pos p (s, ss) (h, hs) =
      let (xs, ex, cx) =
        start_tag_attr-Emits a pos p s h (IsOrdered-le (attr_end a) (length p.raw) as' hs) in
      let (ys, ey, cy) = start_tag_attrs-Covers as' (attr_end a) p ss hs in
      (
        xs ++ ys,
        ground (arith, ex, ey),
        Covers-append p.start p.raw pos (attr_end a) (length p.raw) xs ys cx cy,
      )

  -- For a tag whose attributes stand one behind the other and have no `^`, or that has none, the nodes of
  -- parseStartTag are literals of consecutive ranges that make up the whole tag, and the parser is
  -- left as it was.
  pub parse_start_tag-Covers :
      (p : Parser)
      → All IsStatic p.attrs
      → IsOrdered 0 (length p.raw) p.attrs
      → (ns : List Node) × (parse_start_tag code p ≡ returned ns p)
        × Covers p.start p.raw 0 ns (length p.raw)
  unfolding parse_start_tag start_tag_of
  parse_start_tag-Covers p s h = by_attrs p.attrs s h
    where
      by_attrs :
          (as' : List Attr)
          → All IsStatic as'
          → IsOrdered 0 (length p.raw) as'
          → (ns : List Node) × (start_tag_of code as' p ≡ returned ns p)
            × Covers p.start p.raw 0 ns (length p.raw)
      by_attrs [] s h =
          let (n, e, c) =
            emit_literal_from_range-Covers 0 (length p.raw) p (omega arith) (omega arith)
              (omega (arith, h)) in
          (
            n ∷ [],
            >>=-returned (emit_literal_from_range 0 (length p.raw)) (λ n. pure (n ∷ [])) p n p e,
            c,
          )
      by_attrs (a ∷ as') s h = start_tag_attrs-Covers (a ∷ as') 0 p s h
