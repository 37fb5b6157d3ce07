-- ===== src/Strings/Parts/RoundTrip.antt =====
-- exercises/cookbook/strings.cpp: split behind join.
use going_unmanaged.Prelude.{
  ℕ, ◌≡◌, ◌≢◌, refl, ap, ◌∙◌, sym, List, [], ◌∷◌, ◌++◌, append-nil, append_assoc, false, ne→==,
  ==_refl, Bytes, All,
}
use going_unmanaged.Strings.Parts.{is_empty, split_loop, split, join_loop, join}

abbrev pub Lacks : ℕ → Bytes → Type 0
Lacks sep = All (λ b. b ≢ sep)

-- The parts behind the first one, each with a separator in front.
abbrev separated : ℕ → List Bytes → Bytes
separated sep [] = []
separated sep (part ∷ parts) = (sep ∷ part) ++ separated sep parts

abbrev pub IsFull : Bytes → Type 0
IsFull s = is_empty s ≡ false

pub IsFull-append : (a b : Bytes) → IsFull a → IsFull (a ++ b)
IsFull-append [] b h = cc
IsFull-append (x ∷ a) b h = refl

join_loop-separated :
    (sep : ℕ) (result : Bytes) (parts : List Bytes)
    → IsFull result
    → join_loop (sep ∷ []) result parts ≡ result ++ separated sep parts
unfolding join_loop
join_loop-separated sep result [] h = sym (append-nil result)
join_loop-separated sep result (part ∷ parts) h = rw h (
    ap (λ r. join_loop (sep ∷ []) r parts) (append_assoc result (sep ∷ []) part)
    ∙ join_loop-separated sep (result ++ (sep ∷ part)) parts (IsFull-append result (sep ∷ part) h)
    ∙ append_assoc result (sep ∷ part) (separated sep parts))

-- The bytes of a field that has no separator in it.
split_loop-field :
    (sep : ℕ) (field part rest : Bytes)
    → Lacks sep part
    → split_loop sep field (part ++ rest) ≡ split_loop sep (field ++ part) rest
unfolding split_loop
split_loop-field sep field [] rest h = ap (λ f. split_loop sep f rest) (sym (append-nil field))
split_loop-field sep field (b ∷ part) rest (n, h) = rw (ne→== b sep n) (
    split_loop-field sep (field ++ b ∷ []) part rest h
    ∙ ap (λ f. split_loop sep f rest) (append_assoc field (b ∷ []) part))

-- The last part is not empty.
abbrev pub EndsFull : Bytes → List Bytes → Type 0
EndsFull part [] = IsFull part
EndsFull part (next ∷ parts) = EndsFull next parts

split_loop-separated :
    (sep : ℕ) (part : Bytes) (parts : List Bytes)
    → Lacks sep part
    → All (Lacks sep) parts
    → EndsFull part parts
    → split_loop sep part (separated sep parts) ≡ part ∷ parts
unfolding split_loop
split_loop-separated sep part [] h hs full = rw full refl
split_loop-separated sep part (next ∷ parts) h (hn, hs) full = rw (==_refl sep) (
    ap (λ fs. part ∷ fs)
      (split_loop-field sep [] next (separated sep parts) hn
        ∙ split_loop-separated sep next parts hn hs full))

-- split of what join made is the parts again, where no part has the separator in it, the first one is
-- not empty, for join writes no separator behind it, and the last one is not empty, for split does not
-- give an empty field at the end.
pub split-join :
    (sep : ℕ) (part : Bytes) (parts : List Bytes)
    → Lacks sep part
    → All (Lacks sep) parts
    → IsFull part
    → EndsFull part parts
    → split (join (part ∷ parts) (sep ∷ [])) sep ≡ part ∷ parts
unfolding split join join_loop
split-join sep part parts h hs full full_end =
    ap (split_loop sep []) (join_loop-separated sep part parts full)
    ∙ split_loop-field sep [] part (separated sep parts) h
    ∙ split_loop-separated sep part parts h hs full_end

-- join leaves out the separator behind every empty part that nothing but empty parts precede.
pub join-nil : (parts : List Bytes) (sep : Bytes) → join ([] ∷ parts) sep ≡ join parts sep
unfolding join join_loop
join-nil parts sep = refl
