-- ===== src/Secrets/Contexts.antt =====
-- What the bytes of a context, `AAD.bytes` of seal.go, determine.
use kilnci.Base.{
  List, [], ◌∷◌, ◌++◌, ◌≡◌, refl, sym, ap, ◌∙◌, arith, length, ByteString, codes, append-nil,
  append_assoc,
}
use kilnci.Base.Decimal.{decimal, decimal-stop, format_int, format_int-inj}
use kilnci.Secrets.{Aad, append_netstring, append_netstrings, bytes}

nets : List ByteString → ByteString
nets [] = []
nets (f ∷ fs) = append_netstring [] f ++ nets fs

append_netstring_lem :
    (b f rest : ByteString) → append_netstring b f ++ rest ≡ b ++ (append_netstring [] f ++ rest)
unfolding append_netstring
append_netstring_lem b f rest = simp append_assoc

append_netstrings-nets :
    (b : ByteString) (fs : List ByteString) → append_netstrings b fs ≡ b ++ nets fs
unfolding append_netstrings nets
append_netstrings-nets b [] = sym (append-nil b)
append_netstrings-nets b (f ∷ fs) =
    append_netstrings-nets (append_netstring b f) fs ∙ append_netstring_lem b f (nets fs)

same_length :
    (s t us vs : ByteString)
    → length s ≡ length t
    → s ++ (b',' ∷ us) ≡ t ++ (b',' ∷ vs)
    → (s ≡ t) × (us ≡ vs)
same_length [] [] us vs h e = (refl, cc)
same_length [] (y ∷ t) us vs h e = absurd (omega arith)
same_length (x ∷ s) [] us vs h e = absurd (omega arith)
same_length (x ∷ s) (y ∷ t) us vs h e =
    let (p, q) = same_length s t us vs (omega arith) (cc) in (cc, q)

-- A netstring can be read off the front of whatever follows it.
netstring-inj :
    (s t us vs : ByteString)
    → append_netstring [] s ++ us ≡ append_netstring [] t ++ vs
    → (s ≡ t) × (us ≡ vs)
unfolding append_netstring
netstring-inj s t us vs e =
    let shape = λ (x zs : ByteString).
      append_assoc (decimal (length x)) (b':' ∷ (x ++ b',' ∷ [])) zs
      ∙ ap (λ y. decimal (length x) ++ (b':' ∷ y)) (append_assoc x (b',' ∷ []) zs) in
    let (p, q) =
      decimal-stop (length s) (length t) b':' (s ++ (b',' ∷ us)) (t ++ (b',' ∷ vs)) (omega arith)
        (sym (shape s us) ∙ e ∙ shape t vs) in
    same_length s t us vs p q

nets-inj : (fs gs : List ByteString) → length fs ≡ length gs → nets fs ≡ nets gs → fs ≡ gs
unfolding nets
nets-inj [] [] h e = refl
nets-inj [] (g ∷ gs) h e = absurd (omega arith)
nets-inj (f ∷ fs) [] h e = absurd (omega arith)
nets-inj (f ∷ fs) (g ∷ gs) h e =
    let (p, q) = netstring-inj f g (nets fs) (nets gs) e in
    let r = nets-inj fs gs (omega arith) q in cc

fields : Aad → List ByteString
fields a =
    a.org_id
    ∷ a.scope_kind
    ∷ a.scope_id
    ∷ a.name
    ∷ a.secret_id
    ∷ format_int a.dek_version
    ∷ format_int a.value_version
    ∷ []

bytes-nets : (a : Aad) → bytes a ≡ codes "kiln-secret-v1|" ++ nets (fields a)
unfolding bytes fields append_netstrings
bytes-nets a = append_netstrings-nets (codes "kiln-secret-v1|") (fields a)

cancel_left : (l xs ys : ByteString) → l ++ xs ≡ l ++ ys → xs ≡ ys
cancel_left [] xs ys e = e
cancel_left (x ∷ l) xs ys e = cancel_left l xs ys (cc)

-- No two distinct contexts share an encoding, whatever their fields hold.
pub bytes-inj : (a b : Aad) → bytes a ≡ bytes b → a ≡ b
unfolding fields
bytes-inj a b e =
    let same =
      nets-inj (fields a) (fields b) refl
        (cancel_left (codes "kiln-secret-v1|") _ _ (sym (bytes-nets a) ∙ e ∙ bytes-nets b)) in
    let d : a.dek_version ≡ b.dek_version = format_int-inj a.dek_version b.dek_version (cc) in
    let v : a.value_version ≡ b.value_version =
      format_int-inj a.value_version b.value_version (cc) in
    ground arith

-- The wrapped keys of two organizations are bound to different bytes.
pub append_netstring-inj :
    (label s t : ByteString) → append_netstring label s ≡ append_netstring label t → s ≡ t
append_netstring-inj label s t e =
    let shape = λ (x : ByteString).
      sym (append-nil (append_netstring label x)) ∙ append_netstring_lem label x [] in
    (netstring-inj s t [] [] (cancel_left label _ _ (sym (shape s) ∙ e ∙ shape t))).0
