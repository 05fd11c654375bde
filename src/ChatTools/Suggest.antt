-- ===== src/ChatTools/Suggest.antt =====
-- The replies that a question suggests.
use claude_email.Prelude.{
  ℕ, ◌+◌, ◌≤◌, ◌<◌, ◌≡◌, ◌⊎◌, inl, inr, ◌≢◌, String, Bool, true, false, ◌||◌, none, some, List, [],
  ◌∷◌, ◌++◌, arith, refl, sym, ◌∙◌, ltb, leb, str_eq, any, In, In-append_left, In-append_last,
  length, length-append, text_length, Bool-cases, true≢false, eq_refl, eq_iff, subst,
}
use claude_email.Json.{Json, Items, null, bool, int, float, text, array, object, item, no_items}
use claude_email.Table.{any-In}
use claude_email.ChatTools.{admitted, collect_replies, filter_suggested_replies}

-- No text stands in the list twice.
abbrev pub NoTwice : List String → Type 0
NoTwice [] = Unit
NoTwice (s ∷ ss) = (In s ss → ⊥) × NoTwice ss

In-split : (s t : String) (ss : List String) → In s (ss ++ t ∷ []) → In s ss ⊎ (s ≡ t)
In-split s t [] (inl e) = inr e
In-split s t [] (inr m) = elim m [ ]
In-split s t (x ∷ xs) (inl e) = inl (inl e)
In-split s t (x ∷ xs) (inr m) = elim (In-split s t xs m) [ inl h ↦ inl (inr h) | inr e ↦ inr e ]

NoTwice-append :
    (s : String) (ss : List String) → NoTwice ss → (In s ss → ⊥) → NoTwice (ss ++ s ∷ [])
NoTwice-append s [] h new = (λ m. m, tt)
NoTwice-append s (x ∷ xs) h new = (
  λ m. elim (In-split x s xs m) [ inl k ↦ h.0 k | inr e ↦ new (inl (sym e)) ],
  NoTwice-append s xs h.1 (λ k. new (inr k)),
)

or_right : {a b : Bool} → a ≡ false → (a || b) ≡ true → b ≡ true
or_right e h = ground (arith, e, h)

any→In : (s : String) (ss : List String) → any (str_eq s) ss ≡ true → In s ss
any→In s [] h = ground (arith, h)
any→In s (x ∷ xs) h = elim (Bool-cases (str_eq s x)) [
  | inl e ↦ inl ((eq_iff s x).0 e)
  | inr e ↦ inr (any→In s xs (or_right e h))
]

module _ (strip : String → String) where
  -- The text stands in the list, but for blanks around it.
  abbrev pub Stands : String → Items → Type 0
  Stands s no_items = ⊥
  Stands s (item (text t) rest) = (s ≡ strip t) ⊎ Stands s rest
  Stands s (item _ rest) = Stands s rest

  abbrev pub Fits : String → Type 0
  Fits s = (s ≢ "") × (text_length s ≤ 30)

  -- The replies offered of a list.
  pub record IsOffer (items : Items) (out : List String) : Type 0 where
    pub few : length out ≤ 4
    pub apart : NoTwice out
    pub fit : (s : String) → In s out → Fits s × Stands s items
    pub full : (s : String) → length out < 4 → Stands s items → Fits s → In s out

  -- What the loop makes of the rest of a list, behind what it has kept.
  record IsCollected (items : Items) (kept out : List String) : Type 0 where
    few : length out ≤ 4
    apart : NoTwice out
    fit : (s : String) → In s out → In s kept ⊎ (Fits s × Stands s items)
    keeps : (s : String) → In s kept → In s out
    full : (s : String) → length out < 4 → Stands s items → Fits s → In s out

  admitted-cases :
      (t : String) (out : List String)
      → ((admitted strip (text t) out ≡ none) × (Fits (strip t) → In (strip t) out))
        ⊎ ((admitted strip (text t) out ≡ some (strip t)) × Fits (strip t) × (In (strip t) out → ⊥))
  admitted-cases t out =
      let s = strip t in
      elim (Bool-cases (str_eq s "")) [
        | inl e ↦ inl (rw (e) refl, λ f. elim (f.0 ((eq_iff s "").0 e)) [ ])
        | inr e ↦ elim (Bool-cases (ltb 30 (text_length s))) [
          | inl l ↦
              inl (rw (e, l) refl, λ f. let bad : ⊥ = (ground (arith, f.1, l)) in elim bad [ ])
          | inr l ↦ elim (Bool-cases (any (str_eq s) out)) [
            | inl a ↦ inl (rw (e, l, a) refl, λ f. any→In s out a)
            | inr a ↦ inr (
              rw (e, l, a) refl,
              (λ q. elim (true≢false (sym ((eq_iff s "").1 q) ∙ e)) [ ], ground (arith, l)),
              λ m. elim (true≢false (sym (any-In (str_eq s) s out m (eq_refl s)) ∙ a)) [ ],
            )
          ]
        ]
      ]

  skip :
      (t : String) (rest : Items) (kept out : List String)
      → (Fits (strip t) → In (strip t) kept)
      → IsCollected rest kept out
      → IsCollected (item (text t) rest) kept out
  skip t rest kept out old c = record {
    few = c.few;
    apart = c.apart;
    fit = λ s m. elim (c.fit s m) [ inl k ↦ inl k | inr (f, k) ↦ inr (f, inr k) ];
    keeps = c.keeps;
    full = λ s l m f. elim m [
      | inl e ↦ subst (λ x. In x out) (sym e) (c.keeps _ (old (subst Fits e f)))
      | inr k ↦ c.full s l k f
    ];
  }

  keep :
      (t : String) (rest : Items) (kept out : List String)
      → Fits (strip t)
      → IsCollected rest (kept ++ strip t ∷ []) out
      → IsCollected (item (text t) rest) kept out
  keep t rest kept out f c = record {
    few = c.few;
    apart = c.apart;
    fit = λ s m. elim (c.fit s m) [
      | inl k ↦ elim (In-split s (strip t) kept k) [
        | inl old ↦ inl old
        | inr e ↦ inr (subst Fits (sym e) f, inl e)
      ]
      | inr (g, k) ↦ inr (g, inr k)
    ];
    keeps = λ s m. c.keeps s (In-append_left s kept _ m);
    full = λ s l m g. elim m [
      | inl e ↦ subst (λ x. In x out) (sym e) (c.keeps _ (In-append_last (strip t) kept))
      | inr k ↦ c.full s l k g
    ];
  }

  -- an entry that is no text
  pass :
      (j : Json) (rest : Items) (kept out : List String)
      → ((s : String) → Stands s (item j rest) → Stands s rest)
      → ((s : String) → Stands s rest → Stands s (item j rest))
      → IsCollected rest kept out
      → IsCollected (item j rest) kept out
  pass j rest kept out down up c = record {
    few = c.few;
    apart = c.apart;
    fit = λ s m. elim (c.fit s m) [ inl k ↦ inl k | inr (f, k) ↦ inr (f, up s k) ];
    keeps = c.keeps;
    full = λ s l m f. c.full s l (down s m) f;
  }

  at_four : {k n : ℕ} → k < 4 → n ≡ k + 1 → leb 4 n ≡ true → n ≡ 4
  at_four l e b = ground (arith, l, e, b)

  -- a list that the loop leaves, since it is full
  stop :
      (rest : Items) (kept : List String)
      → length kept ≡ 4
      → NoTwice kept
      → IsCollected rest kept kept
  stop rest kept e apart = record {
    few = omega (arith, e);
    apart = apart;
    fit = λ s m. inl m;
    keeps = λ s m. m;
    full = λ s l m f. let bad : ⊥ = omega (arith, l, e) in elim bad [ ];
  }

  collect_replies-IsCollected :
      (items : Items) (kept : List String)
      → length kept < 4
      → NoTwice kept
      → IsCollected items kept (collect_replies strip items kept)
  unfolding collect_replies
  collect_replies-IsCollected no_items kept l apart = record {
    few = omega (arith, l);
    apart = apart;
    fit = λ s m. inl m;
    keeps = λ s m. m;
    full = λ s l m f. elim m [ ];
  }
  collect_replies-IsCollected (item (text t) rest) kept l apart = elim (admitted-cases t kept) [
    | inl (e, old) ↦
        rw (e, collect_replies)
          (skip t rest kept _ old (collect_replies-IsCollected rest kept l apart))
    | inr (e, f, new) ↦
        let more = length-append kept (strip t ∷ []) in
        let apart' = NoTwice-append (strip t) kept apart new in
        elim (Bool-cases (leb 4 (length (kept ++ strip t ∷ [])))) [
          | inl b ↦
              rw (e, b, collect_replies)
                (keep t rest kept _ f (stop rest _ (at_four l more b) apart'))
          | inr b ↦
              rw (e, b, collect_replies)
                (keep t rest kept _ f
                  (collect_replies-IsCollected rest _ (ground (arith, b)) apart'))
        ]
  ]
  collect_replies-IsCollected (item null rest) kept l apart =
      pass _ rest kept _ (λ s m. m) (λ s m. m) (collect_replies-IsCollected rest kept l apart)
  collect_replies-IsCollected (item (bool b) rest) kept l apart =
      pass _ rest kept _ (λ s m. m) (λ s m. m) (collect_replies-IsCollected rest kept l apart)
  collect_replies-IsCollected (item (int n) rest) kept l apart =
      pass _ rest kept _ (λ s m. m) (λ s m. m) (collect_replies-IsCollected rest kept l apart)
  collect_replies-IsCollected (item (float s) rest) kept l apart =
      pass _ rest kept _ (λ s m. m) (λ s m. m) (collect_replies-IsCollected rest kept l apart)
  collect_replies-IsCollected (item (array js) rest) kept l apart =
      pass _ rest kept _ (λ s m. m) (λ s m. m) (collect_replies-IsCollected rest kept l apart)
  collect_replies-IsCollected (item (object fs) rest) kept l apart =
      pass _ rest kept _ (λ s m. m) (λ s m. m) (collect_replies-IsCollected rest kept l apart)

  -- Of a list of suggested replies, whatever its entries are, at most 4 are kept, none twice. Each
  -- kept one is a text of the list without the blanks around it, and has 1 to 30 characters. If
  -- fewer than 4 are kept, every text of the list that fits so is among them.
  pub filter_suggested_replies-IsOffer :
      (items : Items) → IsOffer items (filter_suggested_replies strip (array items))
  unfolding filter_suggested_replies
  filter_suggested_replies-IsOffer items =
      let c = collect_replies-IsCollected items [] (omega arith) tt in
      record {
        few = c.few;
        apart = c.apart;
        fit = λ s m. elim (c.fit s m) [ inl k ↦ elim k [ ] | inr h ↦ h ];
        full = c.full;
      }
