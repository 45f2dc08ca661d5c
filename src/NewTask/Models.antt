-- ===== src/NewTask/Models.antt =====
-- apps/web/src/components/model-selector.tsx: the models that a task can run on, and the bars that
-- compare them.
use lgtm.Prelude.{ℕ, ◌+◌, ◌-◌, ◌*◌, ◌/◌, max, List, [], ◌∷◌, map, Text, text}
use lgtm.Types.{Executor, claude, codex}

pub data Provider : Type 0 where
  anthropic openai : Provider

-- prices are in tenths of a dollar
pub record LlmModel : Type 0 where
  pub context_tokens : ℕ
  pub description : Text
  pub executor : Executor
  pub input_price : ℕ
  pub intelligence : ℕ
  pub label : Text
  pub model : Text
  pub output_price : ℕ
  pub output_tokens_per_second : ℕ
  pub provider : Provider
  pub value : Text

-- `MODELS`
unfoldable pub models : List LlmModel
models =
    record {
      context_tokens = 1000000;
      description =
          text
            "Anthropic’s strongest long-horizon agent model, with adaptive reasoning and Opus fallback.";
      executor = claude;
      input_price = 100;
      intelligence = 66;
      label = text "Fable 5.1";
      model = text "claude-fable-5-1";
      output_price = 500;
      output_tokens_per_second = 284;
      provider = anthropic;
      value = text "claude-fable-5-1";
    }
    ∷ record {
      context_tokens = 1000000;
      description =
          text
            "Anthropic’s flagship for deep analysis, difficult coding, and sustained agentic work.";
      executor = claude;
      input_price = 50;
      intelligence = 63;
      label = text "Opus 5";
      model = text "claude-opus-5";
      output_price = 250;
      output_tokens_per_second = 57;
      provider = anthropic;
      value = text "claude-opus-5";
    }
    ∷ record {
      context_tokens = 1000000;
      description =
          text "A balanced Claude model for everyday coding with strong reasoning at lower cost.";
      executor = claude;
      input_price = 20;
      intelligence = 55;
      label = text "Sonnet 5";
      model = text "claude-sonnet-5";
      output_price = 100;
      output_tokens_per_second = 71;
      provider = anthropic;
      value = text "claude-sonnet-5";
    }
    ∷ record {
      context_tokens = 1000000;
      description =
          text "OpenAI’s strongest GPT-5.6 model for detailed, polished, high-value coding work.";
      executor = codex;
      input_price = 40;
      intelligence = 61;
      label = text "5.6 Sol";
      model = text "gpt-5.6-sol";
      output_price = 200;
      output_tokens_per_second = 99;
      provider = openai;
      value = text "gpt-5.6-sol";
    }
    ∷ record {
      context_tokens = 1000000;
      description =
          text "OpenAI’s everyday GPT-5.6 workhorse, balancing capability, throughput, and cost.";
      executor = codex;
      input_price = 20;
      intelligence = 57;
      label = text "5.6 Terra";
      model = text "gpt-5.6-terra";
      output_price = 120;
      output_tokens_per_second = 98;
      provider = openai;
      value = text "gpt-5.6-terra";
    }
    ∷ record {
      context_tokens = 1000000;
      description =
          text "OpenAI’s fast, economical GPT-5.6 model for clear and repeatable coding tasks.";
      executor = codex;
      input_price = 2;
      intelligence = 52;
      label = text "5.6 Luna";
      model = text "gpt-5.6-luna";
      output_price = 12;
      output_tokens_per_second = 120;
      provider = openai;
      value = text "gpt-5.6-luna";
    }
    ∷ []

-- `MODELS[0]`
abbrev pub first_or : LlmModel → List LlmModel → LlmModel
first_or default [] = default
first_or default (m ∷ _) = m

-- `Math.max(...values)` of numbers that are not negative
unfoldable pub maximum : List ℕ → ℕ
maximum [] = 0
maximum (n ∷ ns) = max n (maximum ns)

-- `Math.max(1, Math.round((value / maximum) * 10))`
unfoldable pub score : ℕ → ℕ → ℕ
score value most = max 1 ((20 * value + most) / (2 * most))

abbrev pub combined_price : LlmModel → ℕ
combined_price m = m.input_price + m.output_price

unfoldable pub cost_score : LlmModel → ℕ
unfolding score maximum models
cost_score m = max 1 (11 - score (combined_price m) (maximum (map combined_price models)))
