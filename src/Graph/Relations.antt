-- ===== src/Graph/Relations.antt =====
-- The relation types of qxfx0-types/src/relation_type.rs and their classes.
use qx_fx0rust.Base.{Bool, true, false, ◌&&◌, ◌≡◌, List, [], ◌∷◌, arith}
use qx_fx0rust.Base.Text.{Text, codes}

-- `RelationType`
pub data RelationType : Type 0 where
  rel_presupposes rel_limited_by rel_requires rel_claims rel_verified_by rel_signals : RelationType
  rel_expresses rel_differs_from rel_related_to rel_preserves rel_orients_toward : RelationType
  rel_prescribes rel_denotes rel_structures rel_determines rel_transforms : RelationType
  rel_transforms_into rel_created_from rel_gives rel_reveals rel_recognizes rel_unifies :
      RelationType
  rel_connects rel_precedes rel_depends_on rel_includes rel_evokes rel_means rel_says : RelationType
  rel_negates rel_directed_at rel_points_to rel_makes rel_supports rel_sets rel_destroys :
      RelationType
  rel_contrasts_with rel_not_reducible_to rel_is_not rel_is_a rel_necessary_for : RelationType
  rel_relies_on rel_capable_of rel_can_be rel_built_through rel_reconstructs : RelationType
  rel_not_just_copies : RelationType

-- `RelationType::ALL`
abbrev pub all_relation_types : List RelationType
all_relation_types =
    rel_presupposes ∷ rel_limited_by ∷ rel_requires ∷ rel_claims ∷ rel_verified_by ∷ rel_signals
    ∷ rel_expresses ∷ rel_differs_from ∷ rel_related_to ∷ rel_preserves ∷ rel_orients_toward
    ∷ rel_prescribes ∷ rel_denotes ∷ rel_structures ∷ rel_determines ∷ rel_transforms
    ∷ rel_transforms_into ∷ rel_created_from ∷ rel_gives ∷ rel_reveals ∷ rel_recognizes
    ∷ rel_unifies ∷ rel_connects ∷ rel_precedes ∷ rel_depends_on ∷ rel_includes ∷ rel_evokes
    ∷ rel_means ∷ rel_says ∷ rel_negates ∷ rel_directed_at ∷ rel_points_to ∷ rel_makes
    ∷ rel_supports ∷ rel_sets ∷ rel_destroys ∷ rel_contrasts_with ∷ rel_not_reducible_to
    ∷ rel_is_not ∷ rel_is_a ∷ rel_necessary_for ∷ rel_relies_on ∷ rel_capable_of ∷ rel_can_be
    ∷ rel_built_through ∷ rel_reconstructs ∷ rel_not_just_copies ∷ []

-- `RelationType::verb_ru`
unfoldable pub verb_ru : RelationType → Text
verb_ru rel_presupposes = codes "предполагает"
verb_ru rel_limited_by = codes "ограничена"
verb_ru rel_requires = codes "требует"
verb_ru rel_claims = codes "претендует на"
verb_ru rel_verified_by = codes "проверяется через"
verb_ru rel_signals = codes "сигнализирует"
verb_ru rel_expresses = codes "выражает"
verb_ru rel_differs_from = codes "отличается от"
verb_ru rel_related_to = codes "связана с"
verb_ru rel_preserves = codes "сохраняет"
verb_ru rel_orients_toward = codes "ориентирует на"
verb_ru rel_prescribes = codes "предписывает"
verb_ru rel_denotes = codes "обозначает"
verb_ru rel_structures = codes "структурирует"
verb_ru rel_determines = codes "определяет"
verb_ru rel_transforms = codes "преобразует"
verb_ru rel_transforms_into = codes "преобразуется в"
verb_ru rel_created_from = codes "создаётся из"
verb_ru rel_gives = codes "придаёт"
verb_ru rel_reveals = codes "обнаруживает"
verb_ru rel_recognizes = codes "признаёт"
verb_ru rel_unifies = codes "объединяет"
verb_ru rel_connects = codes "связывает"
verb_ru rel_precedes = codes "предшествует"
verb_ru rel_depends_on = codes "зависит от"
verb_ru rel_includes = codes "включает"
verb_ru rel_evokes = codes "вызывает"
verb_ru rel_means = codes "означает"
verb_ru rel_says = codes "говорит"
verb_ru rel_negates = codes "отрицает"
verb_ru rel_directed_at = codes "направлена на"
verb_ru rel_points_to = codes "указывает на"
verb_ru rel_makes = codes "делает"
verb_ru rel_supports = codes "поддерживает"
verb_ru rel_sets = codes "задаёт"
verb_ru rel_destroys = codes "разрушает"
verb_ru rel_contrasts_with = codes "контрастирует с"
verb_ru rel_not_reducible_to = codes "не сводится к"
verb_ru rel_is_not = codes "не является"
verb_ru rel_is_a = codes "является"
verb_ru rel_necessary_for = codes "необходима для"
verb_ru rel_relies_on = codes "опирается на"
verb_ru rel_capable_of = codes "способна на"
verb_ru rel_can_be = codes "может быть"
verb_ru rel_built_through = codes "строится через"
verb_ru rel_reconstructs = codes "реконструирует"
verb_ru rel_not_just_copies = codes "не просто копирует"

-- `RelationType::is_counter`
unfoldable pub is_counter : RelationType → Bool
is_counter rel_contrasts_with = true
is_counter rel_differs_from = true
is_counter rel_negates = true
is_counter rel_not_reducible_to = true
is_counter rel_is_not = true
is_counter rel_destroys = true
is_counter _ = false

-- `RelationType::is_supporting`
unfoldable pub is_supporting : RelationType → Bool
is_supporting rel_presupposes = true
is_supporting rel_requires = true
is_supporting rel_includes = true
is_supporting rel_means = true
is_supporting rel_determines = true
is_supporting rel_claims = true
is_supporting rel_supports = true
is_supporting rel_necessary_for = true
is_supporting rel_relies_on = true
is_supporting _ = false

-- `RelationType::is_qualifying`
unfoldable pub is_qualifying : RelationType → Bool
is_qualifying rel_limited_by = true
is_qualifying rel_structures = true
is_qualifying rel_prescribes = true
is_qualifying rel_transforms = true
is_qualifying rel_transforms_into = true
is_qualifying rel_orients_toward = true
is_qualifying _ = false

-- No relation type is in two of the three classes: a relation that counters neither supports nor
-- qualifies, and one that supports does not qualify.
pub classes_disjoint :
    (r : RelationType)
    → ((is_counter r && is_supporting r) ≡ false)
      × ((is_counter r && is_qualifying r) ≡ false)
      × ((is_supporting r && is_qualifying r) ≡ false)
unfolding is_counter is_supporting is_qualifying
classes_disjoint r = ground arith
