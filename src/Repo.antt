-- ===== src/Repo.antt =====
-- internal/repository/dbrepo: the queries, one module for each of its files.
pub mod RefreshTokens
pub mod Users
pub mod Avatars
pub mod Catalog
pub mod UserGames
