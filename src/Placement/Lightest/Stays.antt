-- ===== src/Placement/Lightest/Stays.antt =====
-- placement.Lightest: the databases placed so far, and the group that `place` answers for them.
use lakefed_ingest.Prelude.{
  ℕ, Option, none, some, Bool, true, false, ◌&&◌, List, [], ◌∷◌, Text, lower, text_eq, text_eq_iff,
  text_eq_refl, sort_by, ◌≡◌, ◌∙◌, refl, arith, sym, Bool-cases, inl, inr,
}
use lakefed_ingest.Placement.Lightest.{
  Lightest, loads_of, knows, group_of, lightest_group, add_load, add_server_load, counted,
  place_kept, place_new, place, by_name,
}

-- A call of `place`: a server, a database and a number of tables.
abbrev pub Call : Type 0
Call = Text × Text × ℕ

pub after : List Call → Lightest → Lightest
after [] l = l
after ((server, database, n) ∷ calls) l = after calls ((place server database n l).1)

-- A database of a server, in lower case, has its group.
record Held (server key group : Text) (l : Lightest) : Type 0 where
  kept : group_of server key l.placed ≡ some group
  known : knows l server ≡ true

abbrev some_group : List (Text × ℕ) → Bool
some_group [] = false
some_group (g ∷ gs) = true

some_group-add_load :
    (group : Text) (n : ℕ) (gs : List (Text × ℕ)) → some_group (add_load group n gs) ≡ some_group gs
unfolding add_load
some_group-add_load group n [] = refl
some_group-add_load group n ((g, m) ∷ gs) = ground arith

some_group-add_server_load :
    (s server group : Text) (n : ℕ) (loads : List (Text × List (Text × ℕ)))
    → some_group (loads_of s (add_server_load server group n loads)) ≡ some_group (loads_of s loads)
unfolding loads_of add_server_load
some_group-add_server_load s server group n [] = refl
some_group-add_server_load s server group n ((t, gs) ∷ loads) =
    ground
      (arith, some_group-add_server_load s server group n loads, some_group-add_load group n gs)

knows-some : (l : Lightest) (s : Text) → knows l s ≡ some_group (loads_of s l.loads)
unfolding knows
knows-some l s = ground arith

knows-counted :
    (s server group : Text) (n : ℕ) (l : Lightest) → knows (counted server group n l) s ≡ knows l s
unfolding counted
knows-counted s server group n l = ground (
  arith,
  knows-some l s,
  knows-some (record l { loads = add_server_load server group n l.loads }) s,
  some_group-add_server_load s server group n l.loads,
)

group_of-new :
    (server key s k g : Text) (placed : List (Text × Text × Text)) {group : Text}
    → group_of s k placed ≡ none
    → group_of server key placed ≡ some group
    → group_of server key ((s, k, g) ∷ placed) ≡ some group
unfolding group_of
group_of-new server key s k g placed e h = elim (Bool-cases (text_eq s server && text_eq k key)) [
  | inl same ↦ ground (arith, same, e, h, text_eq_iff s server, text_eq_iff k key)
  | inr other ↦ rw other h
]

place_new-Held :
    (server key group s k : Text) (n : ℕ) (l : Lightest) (o : Option Text)
    → group_of s k l.placed ≡ none
    → Held server key group l
    → Held server key group ((place_new s k n l o).1)
unfolding place_new
place_new-Held server key group s k n l none e h = h
place_new-Held server key group s k n l (some g) e h =
    let next : Lightest = record l { placed = (s, k, g) ∷ l.placed } in
    record {
      kept = unfold counted in group_of-new server key s k g l.placed e h.kept;
      known =
          knows-counted server s g n next
          ∙ (knows-some next server ∙ sym (knows-some l server) ∙ h.known);
    }

place_kept-Held :
    (server key group s k : Text) (n : ℕ) (l : Lightest) (o : Option Text)
    → group_of s k l.placed ≡ o
    → Held server key group l
    → Held server key group ((place_kept s k n l o).1)
unfolding place_kept
place_kept-Held server key group s k n l (some g) e h = record {
  kept = unfold counted in h.kept;
  known = knows-counted server s g n l ∙ h.known;
}
place_kept-Held server key group s k n l none e h =
    place_new-Held server key group s k n l (lightest_group (sort_by by_name (loads_of s l.loads)))
      e h

place-Held :
    (server key group s d : Text) (n : ℕ) (l : Lightest)
    → Held server key group l
    → Held server key group ((place s d n l).1)
unfolding place
place-Held server key group s d n l h = elim (Bool-cases (knows l s)) [
  | inl known ↦
      rw known
        (place_kept-Held server key group s (lower d) n l (group_of s (lower d) l.placed) refl h)
  | inr not_known ↦ rw not_known h
]

after-Held :
    (server key group : Text) (calls : List Call) (l : Lightest)
    → Held server key group l
    → Held server key group (after calls l)
unfolding after
after-Held server key group [] l h = h
after-Held server key group ((s, d, n) ∷ calls) l h =
    after-Held server key group calls ((place s d n l).1) (place-Held server key group s d n l h)

Held-place :
    (server key group d : Text) (n : ℕ) (l : Lightest)
    → Held server key group l
    → lower d ≡ key
    → (place server d n l).0 ≡ some group
unfolding place place_kept
Held-place server key group d n l h same = rw (same, h.known, h.kept) refl

place_new-begins :
    (s k group : Text) (n : ℕ) (l : Lightest) (o : Option Text)
    → knows l s ≡ true
    → (place_new s k n l o).0 ≡ some group
    → Held s k group ((place_new s k n l o).1)
unfolding place_new
place_new-begins s k group n l none known e = cc
place_new-begins s k group n l (some g) known e =
    let next : Lightest = record l { placed = (s, k, g) ∷ l.placed } in
    record {
      kept =
          unfold counted in (unfold group_of in ground (arith, text_eq_refl s, text_eq_refl k, e));
      known = knows-counted s s g n next ∙ (knows-some next s ∙ sym (knows-some l s) ∙ known);
    }

place_kept-begins :
    (s k group : Text) (n : ℕ) (l : Lightest) (o : Option Text)
    → knows l s ≡ true
    → group_of s k l.placed ≡ o
    → (place_kept s k n l o).0 ≡ some group
    → Held s k group ((place_kept s k n l o).1)
unfolding place_kept
place_kept-begins s k group n l (some g) known h e = record {
  kept = unfold counted in (h ∙ e);
  known = knows-counted s s g n l ∙ known;
}
place_kept-begins s k group n l none known h e =
    place_new-begins s k group n l (lightest_group (sort_by by_name (loads_of s l.loads))) known e

place-begins :
    (s d group : Text) (n : ℕ) (l : Lightest)
    → (place s d n l).0 ≡ some group
    → Held s (lower d) group ((place s d n l).1)
unfolding place
place-begins s d group n l e = elim (Bool-cases (knows l s)) [
  | inl known ↦ rw known (
      place_kept-begins s (lower d) group n l (group_of s (lower d) l.placed) known refl
        (rw known at e))
  | inr not_known ↦ absurd (cc (rw not_known at e))
]

-- A database that was placed is placed in the same group again, in upper or lower case, whatever calls of whatever
-- servers and databases were made in between.
pub place-stays :
    (calls : List Call) (server database again group : Text) (n m : ℕ) (l : Lightest)
    → (place server database n l).0 ≡ some group
    → lower again ≡ lower database
    → (place server again m (after calls ((place server database n l).1))).0 ≡ some group
place-stays calls server database again group n m l e same =
    Held-place server (lower database) group again m (after calls ((place server database n l).1))
      (after-Held server (lower database) group calls ((place server database n l).1)
        (place-begins server database group n l e))
      same
