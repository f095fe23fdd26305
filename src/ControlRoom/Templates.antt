-- ===== src/ControlRoom/Templates.antt =====
-- web/src/features/control-room/templates.ts: the presets of criteria.
use platform_for_sudies.Common.{ℕ, ◌*◌, String, List, [], ◌∷◌, All, refl, arith}
use platform_for_sudies.Scoring.Scale.{ScaleSpec}
use platform_for_sudies.Scoring.Scale.Laws.{IsScale}

pub record CriterionInput : Type 0 where
  pub name : String
  pub description : String
  pub max_x100 : ℕ
  pub step_x100 : ℕ
  pub weight : ℕ

pub record CriteriaTemplate : Type 0 where
  pub id : String
  pub name : String
  pub description : String
  pub criteria : List CriterionInput

-- The helper `c`, with the step in tenths.
abbrev pub preset : String → String → ℕ → ℕ → ℕ → CriterionInput
preset name description max step_tenths weight = record {
  name = name;
  description = description;
  max_x100 = max * 100;
  step_x100 = step_tenths * 10;
  weight = weight;
}

abbrev pub hackathon : CriteriaTemplate
hackathon = record {
  id = "hackathon";
  name = "Хакатон";
  description = "Идея, техническая реализация, дизайн, ценность для пользователя и защита.";
  criteria =
      preset "Идея и актуальность" "Насколько идея оригинальна и решает реальную задачу." 10 10 3
      ∷ preset "Техническая реализация" "Сложность и качество кода, работоспособность прототипа." 10
          10 3
      ∷ preset "Дизайн и удобство" "Понятный интерфейс, продуманный пользовательский путь." 10 10 2
      ∷ preset "Ценность для пользователя" "Кому и чем поможет продукт, есть ли понятная аудитория."
          10 10 2
      ∷ preset "Защита проекта" "Чёткость выступления, демонстрация, ответы на вопросы." 10 10 1
      ∷ [];
}

abbrev pub pitch : CriteriaTemplate
pitch = record {
  id = "pitch";
  name = "Питч";
  description = "Проблема, решение, рынок, бизнес-модель, команда и подача.";
  criteria =
      preset "Проблема и рынок" "Насколько чётко описана проблема и размер аудитории." 10 10 2
      ∷ preset "Решение и продукт" "Как продукт решает проблему и чем отличается от аналогов." 10 10
          3
      ∷ preset "Бизнес-модель" "Откуда придут деньги, понятна ли экономика." 10 10 2
      ∷ preset "Команда" "Опыт и состав команды, способность довести проект до результата." 10 10 1
      ∷ preset "Подача" "Структура, уверенность, уложились ли во время." 10 10 2
      ∷ [];
}

abbrev pub projects : CriteriaTemplate
projects = record {
  id = "projects";
  name = "Конкурс проектов";
  description =
      "Актуальность, новизна, практическая значимость, проработка и защита (шкала до 5 с шагом 0,5).";
  criteria =
      preset "Актуальность" "Важность темы и обоснованность выбора задачи." 5 5 2
      ∷ preset "Новизна" "Оригинальность подхода и самостоятельность работы." 5 5 2
      ∷ preset "Практическая значимость" "Можно ли применить результат на практике." 5 5 3
      ∷ preset "Качество проработки" "Полнота, аккуратность, обоснованность выводов." 5 5 2
      ∷ preset "Защита проекта" "Выступление, наглядность, ответы на вопросы жюри." 5 5 1
      ∷ [];
}

abbrev pub criteria_templates : List CriteriaTemplate
criteria_templates = hackathon ∷ pitch ∷ projects ∷ []

abbrev pub scale_of_input : CriterionInput → ScaleSpec
scale_of_input c = record { max_x100 = c.max_x100; step_x100 = c.step_x100 }

to_ten : IsScale (record { max_x100 = 1000; step_x100 = 100 })
to_ten = record { positive = omega arith; count = 10; whole = refl }

to_five : IsScale (record { max_x100 = 500; step_x100 = 50 })
to_five = record { positive = omega arith; count = 10; whole = refl }

abbrev HasScales : CriteriaTemplate → Type 0
HasScales t = All (λ c. IsScale (scale_of_input c)) t.criteria

-- Every criterion of every preset has a scale of whole steps.
pub criteria_templates-HasScales : All HasScales criteria_templates
criteria_templates-HasScales =
    let tens : HasScales hackathon = (to_ten, (to_ten, (to_ten, (to_ten, (to_ten, tt))))) in
    let fives : HasScales projects = (to_five, (to_five, (to_five, (to_five, (to_five, tt))))) in
    (tens, (tens, (fives, tt)))
