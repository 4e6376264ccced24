-- ===== src/Base/Delivery.antt =====
-- Items that are posted, taken all at once and resumed one by one: those resumed, those taken and
-- those in the queue are, in this order, those posted.
use mathlib.Core.Path.{◌≡◌, sym, ap, ◌∙◌}
use mathlib.Core.List.{List, [], ◌∷◌, ◌++◌, append-nil, append_assoc}

module _ {ℓ} {A : Type ℓ} where
  pub post-Delivered :
      (resumed taken queue posted : List A) (s : A)
      → resumed ++ (taken ++ queue) ≡ posted
      → resumed ++ (taken ++ (queue ++ s ∷ [])) ≡ posted ++ s ∷ []
  post-Delivered resumed taken queue posted s i =
      ap (λ t. resumed ++ t) (sym (append_assoc taken queue (s ∷ [])))
      ∙ sym (append_assoc resumed (taken ++ queue) (s ∷ []))
      ∙ ap (λ l. l ++ s ∷ []) i

  pub take-Delivered :
      (resumed queue posted : List A)
      → resumed ++ ([] ++ queue) ≡ posted
      → resumed ++ (queue ++ []) ≡ posted
  take-Delivered resumed queue posted i = ap (λ t. resumed ++ t) (append-nil queue) ∙ i

  pub resume-Delivered :
      (resumed taken queue posted : List A) (x : A)
      → resumed ++ (x ∷ taken ++ queue) ≡ posted
      → (resumed ++ x ∷ []) ++ (taken ++ queue) ≡ posted
  resume-Delivered resumed taken queue posted x i =
      append_assoc resumed (x ∷ []) (taken ++ queue) ∙ i
