-- ===== src/Examples.antt =====
-- Concrete data for the tests and the witnesses: an ASCII interpreter, a small company, and scripted
-- planners.
pub mod Runs
mod States
mod Witnesses
mod Agents
mod Decoders
mod Planners
mod Views
mod Seats
use saas_agent_lab.Common.{ℕ, ◌<◌, ◌≡◌, refl, ◌++◌, List, [], ◌∷◌, map, some, none, Option}
use saas_agent_lab.Text.{Text, Unicode, IsAscii, codes, ascii_lower, casefold}
use saas_agent_lab.Models.{User, Licence, Assignment}
use saas_agent_lab.Models.Enums.{UserStatus, PolicyDecision}
use saas_agent_lab.Session.{Database, World}

abbrev pub ascii : Unicode
ascii = record {
  lower = map ascii_lower;
  fold = λ c. ascii_lower c ∷ [];
  lower_ascii = λ t h. refl;
  fold_ascii = λ c h. refl;
}

abbrev pub ada : User
ada = record {
  id = 1;
  email = codes "ada@example.com";
  name = codes "Ada";
  status = UserStatus.active;
  created_at = 1;
}

abbrev pub bob : User
bob = record {
  id = 2;
  email = codes "bob@example.com";
  name = codes "Bob";
  status = UserStatus.inactive;
  created_at = 2;
}

abbrev pub github : Licence
github = record {
  id = 1;
  product = codes "GitHub";
  seats_total = 2;
  agent_policy = PolicyDecision.allow;
}

abbrev pub figma : Licence
figma = record {
  id = 2;
  product = codes "Figma";
  seats_total = 1;
  agent_policy = PolicyDecision.deny;
}

abbrev pub seat : Assignment
seat = record { id = 1; user_id = 2; licence_id = 1; assigned_at = 3; revoked_at = none }

abbrev pub company : Database
company = record {
  users = ada ∷ bob ∷ [];
  licences = github ∷ figma ∷ [];
  assignments = seat ∷ [];
  audit_events = [];
  agent_runs = [];
  model_calls = [];
  tool_calls = [];
}

abbrev pub world : World
world = record { db = company; clock = λ n. n; readings = 4 }
