-- ===== src/Session/Server/Counts.antt =====
-- Counts of the sessions of internal/smpp/server.go, as they come and go.
use mysmpp.Base.{
  ℕ, ◌≡◌, [], ◌∷◌, arith, none, some, refl, Bool, Text, if◌then◌else◌, ◌+◌, ◌≤◌, lookup, insert,
  delete, text_eq, text_eqb, text_eqb_iff, Dict, IsDict, length, suc,
}
use mysmpp.Session.{Session}
use mysmpp.Session.Server.{count_bound}

-- The sessions with a system id.
unfoldable pub count_with : Text → Dict Text Session → ℕ
count_with system_id [] = 0
count_with system_id ((id, s) ∷ sessions) =
    let rest = count_with system_id sessions in
    if text_eqb s.system_id system_id then suc rest else rest

abbrev pub one_if : Bool → ℕ
one_if b = if b then 1 else 0

pub count_absent :
    (id system_id : Text) (m : Dict Text Session)
    → lookup id m ≡ none
    → count_with system_id m ≡ count_bound id system_id m
unfolding count_with count_bound lookup
count_absent id system_id [] h = refl
count_absent id system_id ((j, s) ∷ m) h = ground (arith, count_absent id system_id m)

pub count_bound_le :
    (id system_id : Text) (m : Dict Text Session)
    → count_bound id system_id m ≤ count_with system_id m
unfolding count_with count_bound
count_bound_le id system_id [] = omega arith
count_bound_le id system_id ((j, s) ∷ m) = ground (arith, count_bound_le id system_id m)

pub count-insert :
    (id system_id : Text) (t : Session) (m : Dict Text Session)
    → IsDict m
    → count_with system_id (insert id t m)
      ≡ count_bound id system_id m + one_if (text_eqb t.system_id system_id)
unfolding count_with count_bound insert
count-insert id system_id t [] h = ground arith
count-insert id system_id t ((j, s) ∷ m) h =
    ground
      (arith, text_eqb_iff j id, count_absent j system_id m h.0, count-insert id system_id t m h.1)

pub count_split :
    (id system_id : Text) (s : Session) (m : Dict Text Session)
    → IsDict m
    → lookup id m ≡ some s
    → count_with system_id m ≡ count_bound id system_id m + one_if (text_eqb s.system_id system_id)
unfolding count_with count_bound lookup
count_split id system_id s [] h hit = absurd (cc)
count_split id system_id s ((j, t) ∷ m) h hit =
    ground
      (arith, text_eqb_iff j id, count_absent j system_id m h.0, count_split id system_id s m h.1)

pub count-delete :
    (id system_id : Text) (m : Dict Text Session)
    → count_with system_id (delete id m) ≤ count_with system_id m
unfolding count_with delete
count-delete id system_id [] = omega arith
count-delete id system_id ((j, s) ∷ m) = ground (arith, count-delete id system_id m)

pub length-delete : (id : Text) (m : Dict Text Session) → length (delete id m) ≤ length m
unfolding delete
length-delete id [] = omega arith
length-delete id ((j, s) ∷ m) = ground (arith, length-delete id m)

pub length-insert :
    (id : Text) (t : Session) (m : Dict Text Session) → length (insert id t m) ≤ length m + 1
unfolding insert
length-insert id t [] = omega arith
length-insert id t ((j, s) ∷ m) = ground (arith, length-insert id t m)

pub length-insert_stored :
    (id : Text) (s t : Session) (m : Dict Text Session)
    → lookup id m ≡ some s
    → length (insert id t m) ≡ length m
unfolding insert lookup
length-insert_stored id s t [] h = absurd (cc)
length-insert_stored id s t ((j, u) ∷ m) h = ground (arith, length-insert_stored id s t m)
