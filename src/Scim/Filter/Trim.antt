-- ===== src/Scim/Filter/Trim.antt =====
-- `strings.TrimSpace` on a printed filter.
use freecloud.Prelude.{
  ℕ, false, Bytes, codes, [], ◌∷◌, ◌++◌, ◌≡◌, ◌≢◌, refl, sym, ap, ◌∙◌, is_space, append_assoc,
  reverse, trim_left, trim_space,
}
use mathlib.Core.List.{reverse-append, reverse-reverse}
use freecloud.Scim.Filter.Ast.{Node, leaf, both, either, negated, eq, ne, co, sw, pr}
use freecloud.Scim.Filter.Print.{op_text, print_onto, print, IsAttr, IsPrintable}

-- A text that neither begins nor ends with white space.
pub record IsTrim (s : Bytes) : Type 0 where
  first : ℕ
  behind : Bytes
  front : s ≡ first ∷ behind
  body : Bytes
  last : ℕ
  back : s ≡ body ++ last ∷ []
  at_front : is_space first ≡ false
  at_back : is_space last ≡ false

trim_left-id : (c : ℕ) (s : Bytes) → is_space c ≡ false → trim_left (c ∷ s) ≡ c ∷ s
unfolding trim_left
trim_left-id c s h = rw h

trim_left-eq : (s : Bytes) (c : ℕ) (t : Bytes) → s ≡ c ∷ t → is_space c ≡ false → trim_left s ≡ s
trim_left-eq s c t e h = rw e (trim_left-id c t h)

pub trim_space-id : (s : Bytes) → IsTrim s → trim_space s ≡ s
unfolding trim_space
trim_space-id s t =
    let turned = ap reverse t.back ∙ reverse-append t.body (t.last ∷ []) in
    ap (λ (u : Bytes). reverse (trim_left (reverse u)))
      (trim_left-eq s t.first t.behind t.front t.at_front)
    ∙ ap reverse (trim_left-eq (reverse s) t.last (reverse t.body) turned t.at_back)
    ∙ reverse-reverse s

print_onto-append : (n : Node) (k m : Bytes) → print_onto n (k ++ m) ≡ print_onto n k ++ m
unfolding print_onto
print_onto-append (leaf attr pr value) k m = sym (append_assoc attr _ m)
print_onto-append (leaf attr eq value) k m = simp append_assoc
print_onto-append (leaf attr ne value) k m = simp append_assoc
print_onto-append (leaf attr co value) k m = simp append_assoc
print_onto-append (leaf attr sw value) k m = simp append_assoc
print_onto-append (both l r) k m =
    ap (λ (t : Bytes). b'(' ∷ t)
      (ap (λ (t : Bytes). print_onto l (codes ") and (" ++ t)) (print_onto-append r (b')' ∷ k) m)
        ∙ print_onto-append l _ m)
print_onto-append (either l r) k m =
    ap (λ (t : Bytes). b'(' ∷ t)
      (ap (λ (t : Bytes). print_onto l (codes ") or (" ++ t)) (print_onto-append r (b')' ∷ k) m)
        ∙ print_onto-append l _ m)
print_onto-append (negated l) k m =
    ap (λ (t : Bytes). codes "not (" ++ t) (print_onto-append l (b')' ∷ k) m)

leaf-IsTrim :
    (attr tail body : Bytes) (last : ℕ)
    → IsAttr attr
    → tail ≡ body ++ last ∷ []
    → is_space last ≡ false
    → IsTrim (attr ++ tail)
leaf-IsTrim [] tail body last a e h = absurd a.starts
leaf-IsTrim (c ∷ w) tail body last a e h = record {
  first = c;
  behind = w ++ tail;
  front = refl;
  body = (c ∷ w) ++ body;
  last = last;
  back = rw e (sym (append_assoc (c ∷ w) body (last ∷ [])));
  at_front = a.bytes.0.2;
  at_back = h;
}

value-back :
    (op value : Bytes)
    → b' ' ∷ (op ++ (codes " \"" ++ (value ++ (b'"' ∷ []))))
      ≡ (b' ' ∷ (op ++ (codes " \"" ++ value))) ++ b'"' ∷ []
value-back op value = simp append_assoc

pub comparison-IsTrim :
    (attr op value : Bytes)
    → IsAttr attr
    → IsTrim (attr ++ (b' ' ∷ (op ++ (codes " \"" ++ (value ++ (b'"' ∷ []))))))
unfolding is_space
comparison-IsTrim attr op value a =
    leaf-IsTrim attr _ (b' ' ∷ (op ++ (codes " \"" ++ value))) b'"' a (value-back op value) refl

group-IsTrim : (inside : Bytes) → IsTrim (b'(' ∷ (inside ++ b')' ∷ []))
unfolding is_space
group-IsTrim inside = record {
  first = b'(';
  behind = inside ++ b')' ∷ [];
  front = refl;
  body = b'(' ∷ inside;
  last = b')';
  back = refl;
  at_front = refl;
  at_back = refl;
}

print-group :
    (l r : Node) (joint : Bytes)
    → print_onto l (joint ++ print_onto r (b')' ∷ []))
      ≡ print_onto l (joint ++ print_onto r []) ++ b')' ∷ []
print-group l r joint =
    ap (λ (t : Bytes). print_onto l (joint ++ t)) (print_onto-append r [] (b')' ∷ []))
    ∙ ap (print_onto l) (sym (append_assoc joint (print_onto r []) (b')' ∷ [])))
    ∙ print_onto-append l (joint ++ print_onto r []) (b')' ∷ [])

negated-IsTrim : (inside : Bytes) → IsTrim (codes "not (" ++ (inside ++ b')' ∷ []))
unfolding is_space
negated-IsTrim inside = record {
  first = b'n';
  behind = codes "ot (" ++ (inside ++ b')' ∷ []);
  front = refl;
  body = codes "not (" ++ inside;
  last = b')';
  back = refl;
  at_front = refl;
  at_back = refl;
}

print-IsTrim : (n : Node) → IsPrintable n → IsTrim (print n)
unfolding print
print-IsTrim (leaf attr pr value) h =
    leaf-IsTrim attr (codes " pr") (codes " p") b'r' h.0 refl (unfold is_space in refl)
print-IsTrim (leaf attr eq value) h = comparison-IsTrim attr (op_text eq) value h.0
print-IsTrim (leaf attr ne value) h = comparison-IsTrim attr (op_text ne) value h.0
print-IsTrim (leaf attr co value) h = comparison-IsTrim attr (op_text co) value h.0
print-IsTrim (leaf attr sw value) h = comparison-IsTrim attr (op_text sw) value h.0
print-IsTrim (both l r) h = rw (print-group l r (codes ") and (")) (group-IsTrim _)
print-IsTrim (either l r) h = rw (print-group l r (codes ") or (")) (group-IsTrim _)
print-IsTrim (negated l) h = rw (print_onto-append l [] (b')' ∷ [])) (negated-IsTrim _)

pub trim_space-print : (n : Node) → IsPrintable n → trim_space (print n) ≡ print n
trim_space-print n h = trim_space-id (print n) (print-IsTrim n h)

pub print-ne-nil : (n : Node) → IsPrintable n → print n ≢ []
print-ne-nil n h e = let t = print-IsTrim n h in cc (e, t.front)
