-- ===== src/Site/AuthoraConfigs.antt =====
-- service/entity-service/authora-config-entity.service.ts. `updatedAt` takes the time of an update.
use authora.Prelude.{ℕ, String, Bool, true, false, Option, List, ◌==◌}
use authora.Config.Entities.{AuthoraConfigEntity}
use authora.Config.Defaults.{default_authora_config}
use authora.Exec.{pure, gets, modify, ◌>>=◌, ◌>>◌}
use authora.World.{draw, time}
use authora.Site.{Site, Task, lift}

-- what an update writes
abbrev pub stamped :
    ℕ → (AuthoraConfigEntity → AuthoraConfigEntity) → AuthoraConfigEntity → AuthoraConfigEntity
stamped now patch e = record (patch e) { updated_at = now }

abbrev pub activated : Bool → AuthoraConfigEntity → AuthoraConfigEntity
activated active e = record e { is_active = active }

module _ {b : Site} where
  -- `data` is the change of the default columns
  unfoldable pub create : (AuthoraConfigEntity → AuthoraConfigEntity) → Task b AuthoraConfigEntity
  create data_of = do
    n ← lift draw
    now ← lift time
    let created : AuthoraConfigEntity = data_of (record {
      id = b.platform.uuid n;
      name = "";
      description = "";
      is_active = false;
      config = default_authora_config;
      created_at = now;
      updated_at = now;
    })
    modify (λ s. record s { authora_configs = b.authora_configs.insert created s.authora_configs })
    pure created

  unfoldable pub find_active : Task b (Option AuthoraConfigEntity)
  find_active = gets (λ s. b.authora_configs.find_one (λ e. e.is_active) s.authora_configs)

  unfoldable pub find_by_id : String → Task b (Option AuthoraConfigEntity)
  find_by_id id = gets (λ s. b.authora_configs.find_one (λ e. e.id == id) s.authora_configs)

  unfoldable pub find_all : Task b (List AuthoraConfigEntity)
  find_all = gets (λ s. b.authora_configs.find (λ e. true) (λ e. e.created_at) s.authora_configs)

  abbrev pub update_where :
      (AuthoraConfigEntity → Bool) → (AuthoraConfigEntity → AuthoraConfigEntity) → Task b (Unit {0})
  update_where p patch = modify (λ s. record s {
    authora_configs = b.authora_configs.update p (stamped s.world.now patch) s.authora_configs;
  })

  unfoldable pub update : String → (AuthoraConfigEntity → AuthoraConfigEntity) → Task b (Unit {0})
  update id patch = update_where (λ e. e.id == id) patch

  unfoldable pub activate : String → Task b (Unit {0})
  activate id = do
    update_where (λ e. true) (activated false)
    update_where (λ e. e.id == id) (activated true)

  unfoldable pub delete : String → Task b (Unit {0})
  delete id = modify (λ s. record s {
    authora_configs = b.authora_configs.remove (λ e. e.id == id) s.authora_configs;
  })
