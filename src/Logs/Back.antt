-- ===== src/Logs/Back.antt =====
-- Going back in the ring of internal/logger/buffer.go over elements that are set.
use mathlib.Core.List.{reverse-append, reverse-reverse, append-nil, append_assoc}
use aviationwx_org_bridge.Prelude.{
  ℕ, ◌-◌, ◌≡◌, ◌≤◌, refl, sym, ap, ◌∙◌, List, [], ◌∷◌, ◌++◌, Option, some, reverse, length, take,
  drop, take-append-drop, length-drop, length-reverse, arith,
}
use aviationwx_org_bridge.Logs.Buffer.{LogEntry, Ring, next, prev, value, prepend, go_back}

-- The elements that are set.
unfoldable pub set_cells : List LogEntry → Ring
set_cells [] = []
set_cells (e ∷ es) = some e ∷ set_cells es

pub set_cells-append : (xs ys : List LogEntry) → set_cells (xs ++ ys) ≡ set_cells xs ++ set_cells ys
unfolding set_cells
set_cells-append [] ys = refl
set_cells-append (x ∷ xs) ys = ap (λ t. some x ∷ t) (set_cells-append xs ys)

prev_back : (r : Ring) (x : Option LogEntry) → prev (r ++ (x ∷ [])) ≡ x ∷ r
unfolding prev next
prev_back r x =
    ap (λ t. reverse (next t)) (reverse-append r (x ∷ []))
    ∙ reverse-append (reverse r) (x ∷ [])
    ∙ ap (λ t. x ∷ t) (reverse-reverse r)

reverse-cons : (w : LogEntry) (ws : List LogEntry) → reverse (w ∷ ws) ≡ reverse ws ++ (w ∷ [])
reverse-cons w ws = reverse-append (w ∷ []) ws

-- Going back over elements that are set collects their lines.
go_back-set_cells :
    (ws : List LogEntry) (ys : Ring) (acc : List LogEntry)
    → go_back (length ws) (ys ++ set_cells (reverse ws)) acc ≡ reverse ws ++ acc
unfolding go_back set_cells
go_back-set_cells [] ys acc = refl
go_back-set_cells (w ∷ ws) ys acc =
    let last : prev (ys ++ set_cells (reverse (w ∷ ws))) ≡ some w ∷ (ys ++ set_cells (reverse ws)) =
      ap (λ t. prev (ys ++ set_cells t)) (reverse-cons w ws)
      ∙ ap (λ t. prev (ys ++ t)) (set_cells-append (reverse ws) (w ∷ []))
      ∙ ap prev (sym (append_assoc ys (set_cells (reverse ws)) (some w ∷ [])))
      ∙ prev_back (ys ++ set_cells (reverse ws)) (some w) in
    ap (λ r. go_back (length ws) r (prepend (value r) acc)) last
    ∙ go_back-set_cells ws (some w ∷ ys) (w ∷ acc)
    ∙ sym (append_assoc (reverse ws) (w ∷ []) acc)
    ∙ ap (λ t. t ++ acc) (sym (reverse-cons w ws))

-- What going back gives, if there are so many lines.
pub go_back_kept :
    (n : ℕ) (r : Ring) (kept : List LogEntry)
    → n ≤ length kept
    → go_back n (r ++ set_cells kept) [] ≡ drop (length kept - n) kept
go_back_kept n r kept h =
    let a = take (length kept - n) kept in
    let w = drop (length kept - n) kept in
    let long : n ≡ length (reverse w) =
      omega (arith, length-reverse w, length-drop (length kept - n) kept, h) in
    let cells : r ++ set_cells kept ≡ (r ++ set_cells a) ++ set_cells (reverse (reverse w)) =
      ap (λ t. r ++ set_cells t) (sym (take-append-drop (length kept - n) kept))
      ∙ ap (λ t. r ++ t) (set_cells-append a w)
      ∙ sym (append_assoc r (set_cells a) (set_cells w))
      ∙ ap (λ t. (r ++ set_cells a) ++ set_cells t) (sym (reverse-reverse w)) in
    ap (λ t. go_back n t []) cells
    ∙ ap (λ k. go_back k ((r ++ set_cells a) ++ set_cells (reverse (reverse w))) []) long
    ∙ go_back-set_cells (reverse w) (r ++ set_cells a) []
    ∙ append-nil (reverse (reverse w))
    ∙ reverse-reverse w
