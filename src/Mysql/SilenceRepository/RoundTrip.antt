-- ===== src/Mysql/SilenceRepository/RoundTrip.antt =====
-- What an update of a silence leaves for the next read.
use alert_bridge.Base.{
  ℕ, String, ◌≡◌, ◌≢◌, ◌⊎◌, refl, ap, ◌∙◌, inl, inr, none, some, Option-cases, eqb_refl, List,
  arith, eq_iff,
}
use alert_bridge.Base.Assoc.{Map}
use alert_bridge.Errors.{ok, err, wrapped}
use alert_bridge.Entity.SilenceMark.{SilenceMark}
use alert_bridge.Sql.Json.{JsonCodec}
use alert_bridge.Sql.Tables.{row_of}
use alert_bridge.Sql.Versions.{OneRow, update_where, any_target-some, row_of-updated}
use alert_bridge.Mysql.Columns.{null_text, string_value, unmarshal_map}
use alert_bridge.Mysql.SilenceRepository.{
  SilenceRow, SilenceTables, silence_id, silence_version, scan_silence, find_silence_by_id,
}
use alert_bridge.Mysql.SilenceRepository.Writes.{
  row_by, null_refused, to_silence_row, set_silence_columns, save_silence, update_silence,
}

pub string_value-null_text : (s : String) → string_value (null_text s) ≡ s
unfolding string_value null_text
string_value-null_text s = ground (arith, eq_iff s "")

-- A text that is set is no NULL.
pub null_text-set : (s : String) → s ≢ "" → null_text s ≡ some s
unfolding null_text
null_text-set s n = ground (arith, eq_iff s "")

pub null_text-empty : (s : String) → s ≡ "" → null_text s ≡ none
unfolding null_text
null_text-empty s e = ground (arith, eq_iff s "")

module _ (c : JsonCodec) (keep : ℕ → ℕ) where
  -- The silence with what the columns keep of its times.
  abbrev pub kept : SilenceMark → SilenceRow c.Text → SilenceMark
  kept s r = record s {
    id = r.id;
    start_at = keep s.start_at;
    end_at = keep s.end_at;
    created_at = r.created_at;
  }

  unmarshal_map-encode : (m : Map String) → unmarshal_map c (c.encode m) ≡ ok m
  unfolding unmarshal_map
  unmarshal_map-encode m = rw (c.decode-encode m, unmarshal_map) refl

  -- The row for a silence whose creator has a name and an email.
  abbrev row : SilenceMark → SilenceRow c.Text
  row s = row_by c keep s s.created_by s.created_by_email

  to_silence_row-row :
      (s : SilenceMark)
      → s.created_by ≢ ""
      → s.created_by_email ≢ ""
      → to_silence_row c keep s ≡ some (row s)
  unfolding to_silence_row
  to_silence_row-row s n m =
      rw (null_text-set s.created_by n, null_text-set s.created_by_email m) refl

  to_silence_row-refused :
      (s : SilenceMark)
      → (s.created_by ≡ "") ⊎ (s.created_by_email ≡ "")
      → to_silence_row c keep s ≡ none
  unfolding to_silence_row
  to_silence_row-refused s (inl e) = rw (null_text-empty s.created_by e) refl
  to_silence_row-refused s (inr e) = elim (Option-cases (null_text s.created_by)) [
    | inl f ↦ rw f refl
    | inr (by, f) ↦ rw (f, null_text-empty s.created_by_email e) refl
  ]

  set_silence_columns-id : (q r : SilenceRow c.Text) → (set_silence_columns c keep q r).id ≡ r.id
  unfolding set_silence_columns
  set_silence_columns-id q r = refl

  scan-set_silence_columns :
      (s : SilenceMark) (r : SilenceRow c.Text)
      → scan_silence c (set_silence_columns c keep (row s) r) ≡ ok (kept s r)
  unfolding scan_silence set_silence_columns
  scan-set_silence_columns s r =
      rw
        (
          unmarshal_map-encode s.labels,
          string_value-null_text s.alert_id,
          string_value-null_text s.instance_name,
          string_value-null_text s.fingerprint,
        )
        refl

  module _ (s : SilenceMark) (t : List (SilenceRow c.Text)) (r : SilenceRow c.Text)
      (o : OneRow silence_id silence_version s.id t) (e : row_of silence_id s.id t ≡ some r) where
    run :
        s.created_by ≢ ""
        → s.created_by_email ≢ ""
        → update_silence c keep (λ q. q) (λ q. q) s t ≡ (
          ok tt,
          update_where silence_id silence_version
              (set_silence_columns c keep (row s))
              s.id
              r.version
              t,
        )
    unfolding update_silence
    run n m =
        rw
          (
            e,
            update_silence,
            any_target-some silence_id silence_version s.id r.version t r o e,
            eqb_refl r.version,
            to_silence_row-row s n m,
          )
          refl

    -- A silence is stored in one row, no other client comes between, and its creator has a name and an
    -- email. Then Update succeeds, and once the replica has caught up FindByID gives the silence back
    -- as it was given to Update, but for what the columns keep of its times, and for the time of
    -- creation, which stays as it was stored.
    pub find-update_silence :
        (db : SilenceTables c.Text)
        → s.created_by ≢ ""
        → s.created_by_email ≢ ""
        → db.replica ≡ (update_silence c keep (λ q. q) (λ q. q) s t).1
        → ((update_silence c keep (λ q. q) (λ q. q) s t).0 ≡ ok tt)
          × (find_silence_by_id c s.id db ≡ ok (some (kept s r)))
    unfolding find_silence_by_id
    find-update_silence db n m d = (
      ap (λ p. p.0) (run n m),
      rw
          (
            d ∙ ap (λ p. p.1) (run n m),
            row_of-updated silence_id silence_version (set_silence_columns c keep (row s))
                (set_silence_columns-id (row s)) s.id r.version t r e refl,
            scan-set_silence_columns s r,
          )
          refl,
    )

    -- The same row, where the creator of the silence has no name or no email: Update fails and leaves
    -- the table as it was.
    pub update_silence-refused :
        (s.created_by ≡ "") ⊎ (s.created_by_email ≡ "")
        → update_silence c keep (λ q. q) (λ q. q) s t
          ≡ (err (wrapped "updating silence" null_refused), t)
    unfolding update_silence
    update_silence-refused u =
        rw
          (
            e,
            update_silence,
            any_target-some silence_id silence_version s.id r.version t r o e,
            eqb_refl r.version,
            to_silence_row-refused s u,
          )
          refl

  pub save_silence-refused :
      (s : SilenceMark) (t : List (SilenceRow c.Text))
      → (s.created_by ≡ "") ⊎ (s.created_by_email ≡ "")
      → save_silence c keep s t ≡ err (wrapped "inserting silence" null_refused)
  unfolding save_silence
  save_silence-refused s t u = rw (to_silence_row-refused s u, save_silence) refl
