-- ===== src/Python/Split.antt =====
-- `s.split(sep)` on one character, `s.endswith(t)`, and what they do on texts that were joined.
use mathlib.Core.List.{reverse, reverse-reverse, reverse-append}
use noethrion.Base.{
  ℕ, ◌-◌, ◌≡◌, refl, sym, ap, subst, ◌∙◌, Bool, true, false, List, [], ◌∷◌, ◌++◌, arith, ◌==◌,
  if◌then◌else◌, length, drop, All, All-append, append_assoc, append-nil, Bool-cases, inl, inr,
  zero, suc,
}
use noethrion.Python.Bytes.{bytes_eq, bytes_eq→eq}
use noethrion.Python.Text.{Text, is_space, lstrip, strip}

-- `s.split(sep)`, with the part so far
unfoldable pub split_on : ℕ → Text → Text → List Text
split_on sep part [] = part ∷ []
split_on sep part (c ∷ s) =
    let cut = part ∷ split_on sep [] s in
    let more = split_on sep (part ++ c ∷ []) s in if c == sep then cut else more

-- `s.endswith(t)`
unfoldable pub ends_with : Text → Text → Bool
ends_with t s = bytes_eq (drop (length s - length t) s) t

-- `sep.join(parts)`
abbrev pub join : ℕ → List Text → Text
join sep [] = []
join sep (t ∷ []) = t
join sep (t ∷ u ∷ ts) = t ++ sep ∷ join sep (u ∷ ts)

abbrev pub Lacks : ℕ → Text → Type 0
Lacks x s = All (λ c. (c == x) ≡ false) s

split_on-last : (sep : ℕ) (part t : Text) → Lacks sep t → split_on sep part t ≡ (part ++ t) ∷ []
unfolding split_on
split_on-last sep part [] h = ap (λ p. p ∷ []) (sym (append-nil part))
split_on-last sep part (c ∷ t) (hc, ht) =
    rw hc
      (split_on-last sep (part ++ c ∷ []) t ht ∙ ap (λ p. p ∷ []) (append_assoc part (c ∷ []) t))

split_on-append :
    (sep : ℕ) (part t s : Text)
    → Lacks sep t
    → split_on sep part (t ++ sep ∷ s) ≡ (part ++ t) ∷ split_on sep [] s
unfolding split_on
split_on-append sep part [] s h =
    let same : (sep == sep) ≡ true = ground arith in
    rw same (ap (λ p. p ∷ split_on sep [] s) (sym (append-nil part)))
split_on-append sep part (c ∷ t) s (hc, ht) = rw hc (
    split_on-append sep (part ++ c ∷ []) t s ht
    ∙ ap (λ p. p ∷ split_on sep [] s) (append_assoc part (c ∷ []) t))

-- Splitting undoes joining where no part has the separator in it.
pub split_on-join :
    (sep : ℕ) (t : Text) (ts : List Text)
    → All (Lacks sep) (t ∷ ts)
    → split_on sep [] (join sep (t ∷ ts)) ≡ t ∷ ts
split_on-join sep t [] h = split_on-last sep [] t h.0
split_on-join sep t (u ∷ ts) h =
    split_on-append sep [] t (join sep (u ∷ ts)) h.0 ∙ ap (λ l. t ∷ l) (split_on-join sep u ts h.1)

-- A text without white space is stripped already.
lstrip-id : (s : Text) → All (λ c. is_space c ≡ false) s → lstrip s ≡ s
unfolding lstrip
lstrip-id [] h = refl
lstrip-id (c ∷ s) h = rw h.0

All-reverse :
    (s : Text) → All (λ c. is_space c ≡ false) s → All (λ c. is_space c ≡ false) (reverse s)
All-reverse [] h = tt
All-reverse (c ∷ s) h =
    subst (All (λ c. is_space c ≡ false)) (sym (reverse-append (c ∷ []) s))
      (All-append (λ c. is_space c ≡ false) (reverse s) (c ∷ []) (All-reverse s h.1) (h.0, tt))

pub strip-id : (s : Text) → All (λ c. is_space c ≡ false) s → strip s ≡ s
unfolding strip
strip-id s h = rw (lstrip-id s h, lstrip-id (reverse s) (All-reverse s h)) (reverse-reverse s)

Lacks-drop : (x n : ℕ) (s : Text) → Lacks x s → Lacks x (drop n s)
Lacks-drop x zero s h = h
Lacks-drop x (suc n) [] h = tt
Lacks-drop x (suc n) (c ∷ s) h = Lacks-drop x n s h.1

-- A text that lacks the first character of `t` does not end in `t`.
pub ends_with-Lacks : (x : ℕ) (t s : Text) → Lacks x s → ends_with (x ∷ t) s ≡ false
unfolding ends_with
ends_with-Lacks x t s h =
    elim (Bool-cases (bytes_eq (drop (length s - length (x ∷ t)) s) (x ∷ t))) [
      | inl e ↦
          let same = bytes_eq→eq _ _ e in
          let lacks : Lacks x (x ∷ t) =
            subst (Lacks x) same (Lacks-drop x (length s - length (x ∷ t)) s h) in
          cc (sym (self_eq x) ∙ lacks.0)
      | inr e ↦ e
    ]
  where
    self_eq : (n : ℕ) → (n == n) ≡ true
    self_eq n = ground arith
