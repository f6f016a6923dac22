-- ===== src/KeyAgent/Cache/Keys/Restart.antt =====
-- What becomes of cached keys that are not RSA keys when the key agent starts.
use skc_library.Base.{
  ℕ, suc, ◌≡◌, refl, ap, ◌∙◌, false, some, List, [], ◌∷◌, ◌++◌, length, get_elem?, ◌==◌, map,
  append_assoc, append-nil, sym,
}
use skc_library.Types.{GError, ℤ, keytype_code, rsakey}
use skc_library.Effect.{pure, modify, ◌>>=◌}
use skc_library.KeyAgent.Database.{Gda, KeyRow}
use skc_library.KeyAgent.State.{Agent}
use skc_library.KeyAgent.Cache.Keys.{
  get_key_from_model, check_key_row, load_key_rows, mark_for_deletion,
}

-- No row is an RSA key.
abbrev pub NoRsa : List KeyRow → Type 0
NoRsa [] = Unit
NoRsa (r ∷ rows) = ((r.key_type == keytype_code rsakey) ≡ false) × NoRsa rows

get_elem?-append :
    (done : List KeyRow) (r : KeyRow) (rows : List KeyRow)
    → get_elem? (done ++ r ∷ rows) (length done) ≡ some r
get_elem?-append [] r rows = refl
get_elem?-append (x ∷ done) r rows = get_elem?-append done r rows

length-snoc : (done : List KeyRow) (r : KeyRow) → length (done ++ r ∷ []) ≡ suc (length done)
length-snoc [] r = refl
length-snoc (x ∷ done) r = ap suc (length-snoc done r)

module _ {D W : Type 0} (gda : Gda W) where
  -- The state with more keys on the list of those to delete.
  abbrev pub marked : List ℤ → Agent D W → Agent D W
  marked ids a = record a { global_delete_list = a.global_delete_list ++ ids }

  one_row :
      (model : List KeyRow) (i n : ℕ) (r : KeyRow) (e : GError) (a : Agent D W)
      → get_elem? model i ≡ some r
      → (r.key_type == keytype_code rsakey) ≡ false
      → load_key_rows gda model i (suc n) false e a
        ≡ load_key_rows gda model (suc i) n false e (marked (r.cache_id ∷ []) a)
  unfolding load_key_rows get_key_from_model check_key_row mark_for_deletion modify pure ◌>>=◌
  one_row model i n r e a found other =
      rw (load_key_rows, get_key_from_model, found, check_key_row, other) refl

  rows_marked :
      (done rows : List KeyRow) (e : GError) (a : Agent D W)
      → NoRsa rows
      → load_key_rows gda (done ++ rows) (length done) (length rows) false e a
        ≡ some (tt, e, marked (map (λ r. r.cache_id) rows) a)
  unfolding load_key_rows pure
  rows_marked done [] e a h =
      ap (λ l. some (tt, e, record a { global_delete_list = l }))
        (sym (append-nil a.global_delete_list))
  rows_marked done (r ∷ rows) e a (other, rest) =
      one_row (done ++ r ∷ rows) (length done) (length rows) r e a (get_elem?-append done r rows)
        other
      ∙ ap (λ m. load_key_rows gda m (suc (length done)) (length rows) false e next)
          (sym (append_assoc done (r ∷ []) rows))
      ∙ ap (λ i. load_key_rows gda ((done ++ r ∷ []) ++ rows) i (length rows) false e next)
          (sym (length-snoc done r))
      ∙ rows_marked (done ++ r ∷ []) rows e next rest
      ∙ ap (λ l. some (tt, e, record a { global_delete_list = l }))
          (append_assoc a.global_delete_list (r.cache_id ∷ []) (map (λ r. r.cache_id) rows))
    where
      next : Agent D W
      next = marked (r.cache_id ∷ []) a

  -- Cached keys that are not RSA keys are all put on the list of keys to delete if no RSA key comes
  -- before them: for a table of such keys, the loop at the start marks every one.
  pub load_key_rows-marks_others :
      (rows : List KeyRow) (e : GError) (a : Agent D W)
      → NoRsa rows
      → load_key_rows gda rows 0 (length rows) false e a
        ≡ some (tt, e, marked (map (λ r. r.cache_id) rows) a)
  load_key_rows-marks_others rows e a h = rows_marked [] rows e a h
