-- ===== src/AuditLogs/Csv.antt =====
-- The CSV export of audit logs: frontend/src/components/data-display/AuditLogToolbar.tsx.
use it_automation_workspace.Common.{
  ℕ, Option, none, some, List, [], ◌∷◌, Text, codes, lf, map, join, split_on, or_else, All, ◌≡◌,
  ◌≢◌, refl,
}
use it_automation_workspace.AuditLogs.{AuditLog}

abbrev pub semicolon : ℕ
semicolon = 59

abbrev pub headers : List Text
headers =
    codes "Zeitstempel"
    ∷ codes "Akteur"
    ∷ codes "Aktion"
    ∷ codes "Ressource"
    ∷ codes "Ressourcen-ID"
    ∷ []

abbrev pub fields : AuditLog → List Text
fields row =
    row.timestamp
    ∷ row.actor
    ∷ row.action
    ∷ or_else row.target_type []
    ∷ or_else row.target_id []
    ∷ []

abbrev pub line : List Text → Text
line = join (semicolon ∷ [])

-- `downloadCsv`: the content of the file, or none if there are no rows.
unfoldable pub csv_content : List AuditLog → Option Text
csv_content [] = none
csv_content (row ∷ rows) =
    some (join (lf ∷ []) (line headers ∷ map (λ r. line (fields r)) (row ∷ rows)))

-- How a spreadsheet reads the file.
abbrev pub read_csv : Text → List (List Text)
read_csv text = map (split_on semicolon) (split_on lf text)

-- A text without a character.
abbrev pub Lacks : ℕ → Text → Type 0
Lacks c = All (λ d. d ≢ c)

-- A row whose fields hold neither a semicolon nor a line end.
abbrev pub IsClean : List Text → Type 0
IsClean fs = All (Lacks semicolon) fs × All (Lacks lf) fs

headers-read : split_on semicolon (line headers) ≡ headers
headers-read = refl

abbrev pub read_file : Option Text → List (List Text)
read_file none = []
read_file (some text) = read_csv text
