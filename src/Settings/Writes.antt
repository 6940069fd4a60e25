-- ===== src/Settings/Writes.antt =====
-- The calls of SettingsService that change a configuration or the current one, against the catalog.
use authora.Prelude.{
  ℕ, String, Bool, true, false, ◌≡◌, refl, sym, ◌∙◌, ap, inl, inr, some, List, map, if◌then◌else◌,
  ◌==◌, eq_iff, Bool-cases, Member-map, map-Member, some_inj,
}
use authora.Config.Names.{AuthoraSetting, same_authora}
use authora.Config.Values.{authora_field, authora_field-from, put_authora}
use authora.Config.Entities.{AuthoraConfigEntity}
use authora.Site.AuthoraConfigs.{stamped, activated}
use authora.Settings.Catalog.{Catalog, after, set, activate}
use authora.Settings.Represents.{IsListed}

-- A table after an update of the rows that match.
abbrev pub updated :
    (AuthoraConfigEntity → Bool)
    → (AuthoraConfigEntity → AuthoraConfigEntity)
    → List AuthoraConfigEntity
    → List AuthoraConfigEntity
updated p f rows = map (λ e. if p e then f e else e) rows

-- the patch of `set`
abbrev pub putting : AuthoraSetting → ℕ → AuthoraConfigEntity → AuthoraConfigEntity
putting k v e = record e { config = put_authora k v e.config }

field-put :
    (k j : AuthoraSetting) (v : ℕ) (e : AuthoraConfigEntity)
    → authora_field (putting k v e).config j
      ≡ (if same_authora k j then v else authora_field e.config j)
field-put k j v e =
    authora_field-from (λ i. if same_authora k i then v else authora_field e.config i) j

pub set-IsListed :
    (now v : ℕ) (k : AuthoraSetting) (id : String) (rows : List AuthoraConfigEntity) (a : Catalog)
    → a.current ≡ some id
    → IsListed rows a
    → IsListed (updated (λ e. e.id == id) (stamped now (putting k v)) rows) (after (set k v) a)
set-IsListed now v k id rows a current h = record {
  active = λ e m.
      let (x, there, same) = Member-map patch rows m in
      rw same (elim (Bool-cases (x.id == id)) [
        | inl hit ↦ rw hit (h.active x there)
        | inr miss ↦ rw miss (h.active x there)
      ]);
  columns = λ e m j.
      let (x, there, same) = Member-map patch rows m in
      rw (same, current)
        (elim (Bool-cases (x.id == id)) [
          | inl hit ↦ rw (hit, hit, field-put k j v x, h.columns x there j) refl
          | inr miss ↦ rw (miss, miss) (h.columns x there j)
        ]);
  found = λ i known.
      let (x, there, same) = h.found i known in
      (
        patch x,
        map-Member patch rows x there,
        elim (Bool-cases (x.id == id)) [ inl hit ↦ rw hit same | inr miss ↦ rw miss same ],
      );
  current_known = h.current_known;
}
  where
    patch : AuthoraConfigEntity → AuthoraConfigEntity
    patch e = if e.id == id then stamped now (putting k v) e else e

pub activate-IsListed :
    (now : ℕ) (id : String) (rows : List AuthoraConfigEntity) (a : Catalog)
    → a.known id ≡ true
    → IsListed rows a
    → IsListed
        (updated
          (λ e. e.id == id)
          (stamped now (activated true))
          (updated (λ e. true) (stamped now (activated false)) rows))
        (after (activate id) a)
activate-IsListed now id rows a known h = record {
  active = λ e m.
      let (y, there_y, same_y) = Member-map patch (map off rows) m in
      let (x, there, same) = Member-map off rows there_y in
      rw (same_y, same)
        (elim (Bool-cases (x.id == id)) [
          | inl hit ↦
              rw (hit) ((λ active. ap some (sym ((eq_iff x.id id).0 hit))), (λ current. refl))
          | inr miss ↦ rw (miss) (
            (λ active. absurd (cc)),
            (λ current. let hit = (eq_iff x.id id).1 (sym (some_inj current)) in absurd (cc)),
          )
        ]);
  columns = λ e m j.
      let (y, there_y, same_y) = Member-map patch (map off rows) m in
      let (x, there, same) = Member-map off rows there_y in
      rw (same_y, same)
        (elim (Bool-cases (x.id == id)) [
          | inl hit ↦ rw hit (h.columns x there j)
          | inr miss ↦ rw miss (h.columns x there j)
        ]);
  found = λ i known_i.
      let (x, there, same) = h.found i known_i in
      (
        patch (off x),
        map-Member patch (map off rows) (off x) (map-Member off rows x there),
        elim (Bool-cases (x.id == id)) [ inl hit ↦ rw hit same | inr miss ↦ rw miss same ],
      );
  current_known = λ i current. ap a.known (sym (some_inj current)) ∙ known;
}
  where
    off : AuthoraConfigEntity → AuthoraConfigEntity
    off e = if true then stamped now (activated false) e else e

    patch : AuthoraConfigEntity → AuthoraConfigEntity
    patch e = if e.id == id then stamped now (activated true) e else e
